-- ===== src/Http/Message/Append.antt =====
-- `http_parser_append_message` of src/protocol/http_parser.c, from the guard on.
use myworkflow.Base.{ℕ, ◌≡◌, ◌⊎◌, Bool, true, false, some, List, ◌++◌, length}
use myworkflow.Http.Types.{Parser, Ret, done, more, failed}
use myworkflow.Http.Message.{reserve}
use myworkflow.Http.Message.Total.{Settled}
use myworkflow.Http.Message.Reserve.{NoRoom}

-- The result for the bytes `buf`, and when.
abbrev pub Appended : (ℕ → Bool) → List ℕ → Parser → Ret × ℕ × Parser → Type 0
Appended malloc_ok buf p r =
    ((p.complete ≡ true) × (r ≡ (done, 0, p)))
    ⊎ ((p.complete ≡ false)
        × (((reserve malloc_ok (length buf) p ≡ some (failed, p))
              × NoRoom malloc_ok (length buf) p
              × (r ≡ (failed, length buf, p)))
            ⊎ ((size : ℕ) × (reserve malloc_ok (length buf) p
                  ≡ some (more, record p { bufsize = size }))
                × Settled (p.msgbuf ++ buf) r)))
