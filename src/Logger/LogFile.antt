-- ===== src/Logger/LogFile.antt =====
-- `LogFile` of src/logger/LogFile.h and .cpp. Its mutex guards each call as a whole.
pub mod Batches
use my_network_library.Prelude.{ℕ, ◌+◌, Option, none, some, List, [], ◌∷◌, leb, if◌then◌else◌}
use my_network_library.Prelude.Text.{Text}
use my_network_library.Prelude.Monad.{◌>>=◌}
use my_network_library.Logger.FixedBuffer.{FixedBuffer}
use my_network_library.Logger.AppendFile.{Stream}
use my_network_library.Logger.AppendFile

module _ (S : Stream) where
  pub record LogFile : Type 0 where
    pub flush_every : ℕ
    pub count : ℕ
    pub file : S.File

  unfoldable pub construct : ℕ → S.File → LogFile
  construct n f = record { flush_every = n; count = 0; file = f }

  unfoldable pub flush : LogFile → LogFile
  flush l = record l { file = S.fflush l.file }

  abbrev pub counted : LogFile → S.File → LogFile
  counted l f =
      if leb l.flush_every (l.count + 1)
      then record l { count = 0; file = S.fflush f }
      else record l { count = l.count + 1; file = f }

  abbrev pub append_result : LogFile → Option S.File → Option LogFile
  append_result l none = none
  append_result l (some f) = some (counted l f)

  -- `append`, and `append_unlocked`
  unfoldable pub append : Text → LogFile → Option LogFile
  append line l = append_result l (AppendFile.append S line l.file)

  -- the loop of `threadFunc` over the collected buffers, each handed to `append`
  unfoldable pub write_buffers : List FixedBuffer → LogFile → Option LogFile
  unfolding append
  write_buffers [] l = some l
  write_buffers (b ∷ bs) l = do l' ← append b.data_ l; write_buffers bs l'

  -- with the `flush` at the end of a round
  unfoldable pub write_round : List FixedBuffer → LogFile → Option LogFile
  unfolding write_buffers flush
  write_round bs l = do l' ← write_buffers bs l; some (flush l')
