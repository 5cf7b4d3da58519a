-- ===== src/Books/Spec.antt =====
-- The contract of `Store` in internal/books/store.go, without a representation: each user has a
-- shelf of books by id, and a call of one user can touch that user's shelf alone.
use book_guard_api.Base.{◌&&◌, Option, Text, ◌==◌, if◌then◌else◌}
use book_guard_api.Books.Book.{Book}

-- The book that a user sees under an id, as it is stored.
abbrev pub Shelves : Type 0
Shelves = Text → Text → Option Book

abbrev pub place : Text → Text → Option Book → Shelves → Shelves
place user id b shelves v j = if user == v && id == j then b else shelves v j
