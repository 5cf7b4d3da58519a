-- ===== src/Books/Requests.antt =====
-- The seven routes that internal/books/handlers.go registers, as requests to a server that runs on
-- the memory store, and the changes that they can make to it. A request runs its whole handler with
-- nothing in between.
pub mod Change
pub mod Create
pub mod Update
pub mod Effect
pub mod Isolation
pub mod Names
pub mod Covers
pub mod Hidden
pub mod Ghosts
pub mod History
use book_guard_api.Base.{ℕ, Text, Option, CaseTable}
use book_guard_api.Auth.{Identity}
use book_guard_api.Books.Memory.Instance.{memory_repository}
use book_guard_api.Books.Repository.{Enqueuer}
use book_guard_api.Books.Handlers.{
  BookWrite, BookPatch, Server, create, list, get, update, delete, cover, refresh,
}

-- The id of a new book and the time are drawn by the server.
pub data Request : Type 0 where
  posts : (id : Text) (now : ℕ) → BookWrite → Request
  lists : Request
  gets : (id : Text) → Request
  patches : (now : ℕ) (id : Text) → BookPatch → Request
  deletes : (id : Text) → Request
  covers : (id : Text) → Request
  refreshes : (id : Text) → Request

module _ (queue : Enqueuer) (table : CaseTable) where
  abbrev pub MemoryServer : Type 0
  MemoryServer = Server memory_repository queue

  -- The server after a request.
  unfoldable pub serve : Option Identity → Request → MemoryServer → MemoryServer
  serve who (posts id now body) srv = (create memory_repository queue table id now who body srv).1
  serve who lists srv = (list memory_repository queue who srv).1
  serve who (gets id) srv = (get memory_repository queue who id srv).1
  serve who (patches now id body) srv = (update memory_repository queue table now who id body srv).1
  serve who (deletes id) srv = (delete memory_repository queue who id srv).1
  serve who (covers id) srv = (cover memory_repository queue who id srv).1
  serve who (refreshes id) srv = (refresh memory_repository queue who id srv).1
