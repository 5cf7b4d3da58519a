-- ===== src/Books/Postgres/Steps/Traces.antt =====
-- Any calls, one after the other, on internal/books/store_postgres.go and on store_memory.go.
use book_guard_api.Base.{◌≡◌, refl, sym, ap, subst, [], ◌∷◌, List, map, lookup}
use book_guard_api.Books.Memory
use book_guard_api.Books.Memory.{StoreError, MemoryStore, new_memory_store}
use book_guard_api.Books.Memory.Invariant.{
  Call, creates, updates, deletes, ensures, marks, enriches, covers, step, IsValid, step-IsValid,
  new-IsValid,
}
use book_guard_api.Books.Memory.Instance.{memory_repository}
use book_guard_api.Books.Repository.{Repository}
use book_guard_api.Books.Rows.{row_at, find_row}
use book_guard_api.Books.Postgres.{Tables, empty_tables}
use book_guard_api.Books.Postgres.Instance.{postgres_repository}
use book_guard_api.Books.Postgres.Mirrors.{healthy, Mirrors}
use book_guard_api.Books.Postgres.Mirrors.Agrees.{Agrees, Mirrors-Agrees}
use book_guard_api.Books.Postgres.Steps.{
  Answer, with_book-state, without_book-state, call_on, in_microseconds, IsAllowed, Follows,
}
use book_guard_api.Books.Postgres.Steps.Shelved.{create-Follows, update-Follows, delete-Follows}
use book_guard_api.Books.Postgres.Steps.Shared.{
  ensures-Follows, marks-Follows, enriches-Follows, covers-Follows,
}

call_on-Follows :
    (t : Tables) (s : MemoryStore)
    → Mirrors t s
    → (c : Call) → IsAllowed s c
    → Follows
        (call_on postgres_repository c (healthy t))
        (call_on memory_repository (in_microseconds c) s)
call_on-Follows t s m (creates id now user b) (fresh, legal, bare) =
    create-Follows t s m id now user b fresh legal bare
call_on-Follows t s m (updates now user b) (legal, bare) =
    update-Follows t s m now user b legal bare
call_on-Follows t s m (deletes user id) allowed = delete-Follows t s m user id
call_on-Follows t s m (ensures isbn) allowed = ensures-Follows t s m isbn
call_on-Follows t s m (marks isbn) allowed = marks-Follows t s m isbn
call_on-Follows t s m (enriches now isbn o status) allowed =
    enriches-Follows t s m now isbn o status
call_on-Follows t s m (covers isbn c) (e, there) = covers-Follows t s m isbn c e there

-- Calls in a row: what each answers, and what is left.
unfoldable pub answers : (repo : Repository) → List Call → repo.State → List Answer × repo.State
answers repo [] s = ([], s)
answers repo (c ∷ calls) s =
    let here = call_on repo c s in
    let later = answers repo calls here.1 in (here.0 ∷ later.0, later.1)

-- Each call is allowed where its turn comes.
abbrev pub AreAllowed : List Call → MemoryStore → Type 0
AreAllowed [] s = Unit
AreAllowed (c ∷ calls) s =
    IsAllowed s c × AreAllowed calls (call_on memory_repository (in_microseconds c) s).1

answers-Mirrors :
    (calls : List Call) (t : Tables) (s : MemoryStore)
    → Mirrors t s
    → AreAllowed calls s
    → ((answers postgres_repository calls (healthy t)).0
        ≡ (answers memory_repository (map in_microseconds calls) s).0)
      × (t' : Tables) × ((answers postgres_repository calls (healthy t)).1 ≡ healthy t')
      × Mirrors t' (answers memory_repository (map in_microseconds calls) s).1
unfolding answers
answers-Mirrors [] t s m allowed = (refl, t, refl, m)
answers-Mirrors (c ∷ calls) t s m (now, later) =
    let (same, t', left, m') = call_on-Follows t s m c now in
    let (same_later, t'', left_later, m'') =
      answers-Mirrors calls t' (call_on memory_repository (in_microseconds c) s).1 m' later in
    rw left (
      rw same (
        ap (λ l. (call_on memory_repository (in_microseconds c) s).0 ∷ l) same_later,
        t'',
        left_later,
        m'',
      ))

pub empty-Mirrors : Mirrors empty_tables new_memory_store
unfolding row_at find_row lookup
empty-Mirrors = record {
  unique_books = tt;
  unique_editions = tt;
  unique_covers = tt;
  same_books = λ id. refl;
  plain = λ id b h. cc;
  same_editions = λ isbn. refl;
  same_covers = λ isbn. refl;
}

call_on-step : (c : Call) (s : MemoryStore) → (call_on memory_repository c s).1 ≡ step c s
unfolding call_on step
call_on-step (creates id now user b) s = refl
call_on-step (updates now user b) s = with_book-state (Memory.update now user b s)
call_on-step (deletes user id) s = without_book-state (Memory.delete user id s)
call_on-step (ensures isbn) s = refl
call_on-step (marks isbn) s = refl
call_on-step (enriches now isbn o status) s = refl
call_on-step (covers isbn c) s = refl

answers-IsValid :
    (calls : List Call) (s : MemoryStore)
    → IsValid s
    → IsValid (answers memory_repository calls s).1
unfolding answers
answers-IsValid [] s v = v
answers-IsValid (c ∷ calls) s v =
    answers-IsValid calls (call_on memory_repository c s).1
      (subst IsValid (sym (call_on-step c s)) (step-IsValid s v c))

-- Whatever calls follow each other from empty stores on, if no statement fails and each call is
-- allowed where its turn comes, the PostgreSQL store answers what the memory store answers at times in
-- whole microseconds, and after them the reads of both agree.
pub answers_lem :
    (calls : List Call)
    → AreAllowed calls new_memory_store
    → let r = answers postgres_repository calls (healthy empty_tables) in
      let r' = answers memory_repository (map in_microseconds calls) new_memory_store in
      (r.0 ≡ r'.0) × Agrees r.1 r'.1
answers_lem calls allowed =
    let s = (answers memory_repository (map in_microseconds calls) new_memory_store).1 in
    let (same, t, left, m) =
      answers-Mirrors calls empty_tables new_memory_store empty-Mirrors allowed in
    let v = answers-IsValid (map in_microseconds calls) new_memory_store new-IsValid in
    (same, subst (λ db. Agrees db s) (sym left) (Mirrors-Agrees t s m v))
