-- ===== src/Network/Connection/Written.antt =====
-- What `Send` of src/network/Connection.cpp hands to the socket.
use mathlib.Core.List.{append-nil, append_assoc}
use my_network_library.Prelude.{
  ℕ, zero, suc, ◌-◌, ◌≡◌, refl, sym, ap, ◌∙◌, ◌⊎◌, inl, inr, Bool, true, false, not, Option, none,
  some, List, [], ◌∷◌, ◌++◌, if◌then◌else◌, length, take, drop, take-append-drop, length-drop,
}
use my_network_library.Prelude.Text.{Text}
use my_network_library.Network.Buffer.{c_string, set_buf, clear}
use my_network_library.Network.Connection.{
  Connection, closed, WriteResult, accepted, interrupted, again, error, is_connected, write_loop,
  write, send, set_send_buffer, clear_sent, write_once,
}

-- a call of `write` gives up: the socket is full, or broken
unfoldable pub gives_up : List WriteResult → Bool
gives_up [] = false
gives_up (accepted n ∷ rs) = gives_up rs
gives_up (interrupted ∷ rs) = gives_up rs
gives_up (again ∷ rs) = true
gives_up (error ∷ rs) = true

-- the results suffice for the loop to end, with `n` bytes to write
unfoldable pub settles : List WriteResult → ℕ → Bool
settles rs zero = true
settles [] (suc n) = false
settles (accepted k ∷ rs) (suc n) = settles rs (suc n - k)
settles (interrupted ∷ rs) (suc n) = settles rs (suc n)
settles (again ∷ rs) (suc n) = true
settles (error ∷ rs) (suc n) = true

pub record Sent (rs : List WriteResult) (msg : Text) (c c' : Connection) : Type 0 where
  pub out : Text
  pub rest : Text
  pub split : out ++ rest ≡ msg
  pub text : c'.sent ≡ c.sent ++ out
  pub ended : (rest ≡ []) ⊎ (gives_up rs ≡ true)

abbrev SentOption : List WriteResult → Text → Connection → Option Connection → Type 0
SentOption rs msg c none = settles rs (length msg) ≡ false
SentOption rs msg c (some c') = Sent rs msg c c'

nothing :
    (rs : List WriteResult) (msg : Text) (c c' : Connection)
    → c'.sent ≡ c.sent
    → (msg ≡ []) ⊎ (gives_up rs ≡ true)
    → Sent rs msg c c'
nothing rs msg c c' e h = record {
  out = [];
  rest = msg;
  split = refl;
  text = e ∙ sym (append-nil c.sent);
  ended = h;
}

accept :
    (n : ℕ) (rs : List WriteResult) (x : ℕ) (xs : Text) (c : Connection)
    (result : Option Connection)
    → SentOption rs (drop n (x ∷ xs)) (record c { sent = c.sent ++ take n (x ∷ xs) }) result
    → SentOption (accepted n ∷ rs) (x ∷ xs) c result
unfolding gives_up settles
accept n rs x xs c none s = ap (settles rs) (sym (length-drop n (x ∷ xs))) ∙ s
accept n rs x xs c (some c') s = record {
  out = take n (x ∷ xs) ++ s.out;
  rest = s.rest;
  split =
      append_assoc (take n (x ∷ xs)) s.out s.rest
      ∙ ap (λ t. take n (x ∷ xs) ++ t) s.split
      ∙ take-append-drop n (x ∷ xs);
  text = s.text ∙ append_assoc c.sent (take n (x ∷ xs)) s.out;
  ended = s.ended;
}

retry :
    (rs : List WriteResult) (x : ℕ) (xs : Text) (c : Connection) (result : Option Connection)
    → SentOption rs (x ∷ xs) c result
    → SentOption (interrupted ∷ rs) (x ∷ xs) c result
unfolding gives_up settles
retry rs x xs c none s = s
retry rs x xs c (some c') s = record {
  out = s.out;
  rest = s.rest;
  split = s.split;
  text = s.text;
  ended = s.ended;
}

write_loop-Sent :
    (rs : List WriteResult) (msg : Text) (c : Connection)
    → SentOption rs msg c (write_loop rs msg c)
unfolding write_loop gives_up settles
write_loop-Sent [] [] c = nothing [] [] c c refl (inl refl)
write_loop-Sent (r ∷ rs) [] c = nothing (r ∷ rs) [] c c refl (inl refl)
write_loop-Sent [] (x ∷ xs) c = refl
write_loop-Sent (accepted n ∷ rs) (x ∷ xs) c =
    accept n rs x xs c
      (write_loop rs (drop n (x ∷ xs)) (record c { sent = c.sent ++ take n (x ∷ xs) }))
      (write_loop-Sent rs (drop n (x ∷ xs)) (record c { sent = c.sent ++ take n (x ∷ xs) }))
write_loop-Sent (interrupted ∷ rs) (x ∷ xs) c =
    retry rs x xs c (write_loop rs (x ∷ xs) c) (write_loop-Sent rs (x ∷ xs) c)
write_loop-Sent (again ∷ rs) (x ∷ xs) c = nothing (again ∷ rs) (x ∷ xs) c c refl (inr refl)
write_loop-Sent (error ∷ rs) (x ∷ xs) c =
    nothing (error ∷ rs) (x ∷ xs) c (record c { state = closed }) refl (inr refl)

settled :
    (rs : List WriteResult) (msg : Text) (c : Connection) (result : Option Connection)
    → SentOption rs msg c result
    → settles rs (length msg) ≡ true
    → (c' : Connection) × (clear_sent result ≡ some c') × Sent rs msg c c'
settled rs msg c none s t = cc
settled rs msg c (some r) s t = (
  record r { send_buffer = clear r.send_buffer },
  refl,
  record { out = s.out; rest = s.rest; split = s.split; text = s.text; ended = s.ended },
)

both_true :
    (a b : Bool) (x : Option Connection) (y z : Option Connection)
    → a ≡ true
    → b ≡ true
    → (if not a then x else clear_sent (if b then y else z)) ≡ clear_sent y
both_true a b x y z h k = rw (h, k)

-- `Send` on a connected nonblocking connection, when the results of `write` suffice for its loop to
-- end: what is handed to the socket is a first part of the message up to its first zero byte, and
-- all of that unless a call of `write` gave up.
pub send-Sent :
    (rs : List WriteResult) (c : Connection) (msg : Text)
    → is_connected c ≡ true
    → c.nonblocking ≡ true
    → settles rs (length (c_string msg)) ≡ true
    → (c' : Connection) × (send rs c msg ≡ some c') × Sent rs (c_string msg) c c'
unfolding send write set_send_buffer is_connected set_buf
send-Sent rs c msg h k t =
    let d = record c { send_buffer = c_string msg } in
    let (c', ran, s) =
      settled rs (c_string msg) d (write_loop rs (c_string msg) d)
        (write_loop-Sent rs (c_string msg) d) t in
    (
      c',
      both_true (is_connected d) d.nonblocking (some d) (write_loop rs (c_string msg) d)
            (write_once rs d) h k
          ∙ ran,
      record { out = s.out; rest = s.rest; split = s.split; text = s.text; ended = s.ended },
    )
