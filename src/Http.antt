-- ===== src/Http.antt =====
-- The errors that the handlers return through Huma (`huma.Error404NotFound` and its like): a
-- status and a message.
use book_guard_api.Base.{ℕ, Text, codes}

pub data HttpError : Type 0 where
  http_error : ℕ → Text → HttpError

abbrev pub unauthorized : HttpError
unauthorized = http_error 401 (codes "unauthenticated")
