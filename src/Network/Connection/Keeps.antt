-- ===== src/Network/Connection/Keeps.antt =====
-- What reading and sending of src/network/Connection.cpp keep of a connection.
use mathlib.Core.Option.{some-injective}
use my_network_library.Prelude.{
  ℕ, suc, ◌≡◌, refl, ap, ◌∙◌, Bool, true, false, not, Option, none, some, List, [], ◌∷◌, ◌++◌,
  if◌then◌else◌, length, take, drop, length-drop,
}
use my_network_library.Prelude.Text.{Text}
use my_network_library.Network.Buffer.{append_bytes, clear, c_string, set_buf}
use my_network_library.Network.Connection.{
  Connection, closed, is_connected, ReadResult, bytes, interrupted, again, eof, error, read,
  read_nonblocking, read_blocking, read_once, WriteResult, accepted, write_loop, write_blocking,
  write_once, clear_sent, write, send, set_send_buffer,
}
use my_network_library.Network.Connection.Written.{settles}

-- what reading, a callback and sending keep
abbrev pub Keeps : Connection → Connection → Type 0
Keeps c d =
    (d.fd ≡ c.fd) × (d.channel ≡ c.channel) × (is_connected c ≡ false → is_connected d ≡ false)

pub Keeps-refl : (c : Connection) → Keeps c c
Keeps-refl c = (refl, refl, λ h. h)

pub Keeps-trans : (c d e : Connection) → Keeps c d → Keeps d e → Keeps c e
Keeps-trans c d e (h, k, l) (h', k', l') = (h' ∙ h, k' ∙ k, λ x. l' (l x))

pub Keeps-over : (c d e : Connection) → Keeps c d → d ≡ e → Keeps c e
Keeps-over c d e k h = rw h at k

-- a reading that ends keeps the connection
abbrev KeepsRead : Connection → Option (Connection × Bool) → Type 0
KeepsRead c o = (d : Connection) (b : Bool) → o ≡ some (d, b) → Keeps c d

Keeps-end : (c d : Connection) (b : Bool) → Keeps c d → KeepsRead c (some (d, b))
Keeps-end c d b k e a h = Keeps-over c d e k (ap (λ x. x.0) (some-injective _ _ h))

pub Keeps-close : (c : Connection) → Keeps c (record c { state = closed })
unfolding is_connected
Keeps-close c = (refl, refl, λ h. refl)

read_nonblocking-Keeps :
    (rs : List ReadResult) (c : Connection) → KeepsRead c (read_nonblocking rs c)
unfolding read_nonblocking is_connected
read_nonblocking-Keeps [] c d b h = cc
read_nonblocking-Keeps (bytes t ∷ rs) c d b h =
    read_nonblocking-Keeps rs (record c { read_buffer = append_bytes c.read_buffer t }) d b h
read_nonblocking-Keeps (interrupted ∷ rs) c d b h = read_nonblocking-Keeps rs c d b h
read_nonblocking-Keeps (again ∷ rs) c d b h = Keeps-end c c false (Keeps-refl c) d b h
read_nonblocking-Keeps (eof ∷ rs) c d b h =
    Keeps-end c (record c { state = closed }) true (Keeps-close c) d b h
read_nonblocking-Keeps (error ∷ rs) c d b h =
    Keeps-end c (record c { state = closed }) true (Keeps-close c) d b h

read_blocking-Keeps : (r : ReadResult) (c : Connection) → Keeps c (read_blocking r c)
unfolding read_blocking is_connected
read_blocking-Keeps (bytes t) c = (refl, refl, λ h. h)
read_blocking-Keeps interrupted c = Keeps-close c
read_blocking-Keeps again c = Keeps-close c
read_blocking-Keeps eof c = Keeps-close c
read_blocking-Keeps error c = Keeps-close c

read_once-Keeps : (rs : List ReadResult) (c : Connection) → KeepsRead c (read_once rs c)
read_once-Keeps [] c d b h = cc
read_once-Keeps (r ∷ rs) c d b h =
    Keeps-end c (read_blocking r c) false (read_blocking-Keeps r c) d b h

KeepsRead-if :
    (b : Bool) (c : Connection) (o u : Option (Connection × Bool))
    → KeepsRead c o
    → KeepsRead c u
    → KeepsRead c (if b then o else u)
KeepsRead-if true c o u h k = h
KeepsRead-if false c o u h k = k

pub read-Keeps : (rs : List ReadResult) (c : Connection) → KeepsRead c (read rs c)
unfolding read is_connected
read-Keeps rs c =
    let e = record c { read_buffer = clear c.read_buffer } in
    KeepsRead-if (not (is_connected c)) c _ _ (Keeps-end c c false (Keeps-refl c))
      (KeepsRead-if c.nonblocking c _ _ (read_nonblocking-Keeps rs e) (read_once-Keeps rs e))

-- an operation that ends, and keeps the connection
abbrev pub EndsKept : Connection → Option Connection → Type 0
EndsKept c o = (d : Connection) × (o ≡ some d) × Keeps c d

kept : (c d : Connection) → Keeps c d → EndsKept c (some d)
kept c d k = (d, refl, k)

write_loop-EndsKept :
    (rs : List WriteResult) (msg : Text) (c : Connection)
    → settles rs (length msg) ≡ true
    → EndsKept c (write_loop rs msg c)
unfolding write_loop settles is_connected
write_loop-EndsKept [] [] c h = kept c c (Keeps-refl c)
write_loop-EndsKept (r ∷ rs) [] c h = kept c c (Keeps-refl c)
write_loop-EndsKept [] (x ∷ xs) c h = cc
write_loop-EndsKept (accepted n ∷ rs) (x ∷ xs) c h =
    write_loop-EndsKept rs (drop n (x ∷ xs)) (record c { sent = c.sent ++ take n (x ∷ xs) })
      (ap (settles rs) (length-drop n (x ∷ xs)) ∙ h)
write_loop-EndsKept (WriteResult.interrupted ∷ rs) (x ∷ xs) c h =
    write_loop-EndsKept rs (x ∷ xs) c h
write_loop-EndsKept (WriteResult.again ∷ rs) (x ∷ xs) c h = kept c c (Keeps-refl c)
write_loop-EndsKept (WriteResult.error ∷ rs) (x ∷ xs) c h =
    kept c (record c { state = closed }) (Keeps-close c)

write_once-EndsKept :
    (rs : List WriteResult) (n : ℕ) (c : Connection)
    → settles rs (suc n) ≡ true
    → EndsKept c (write_once rs c)
unfolding write_blocking settles is_connected
write_once-EndsKept [] n c h = cc
write_once-EndsKept (accepted k ∷ rs) n c h =
    kept c (record c { sent = c.sent ++ take k c.send_buffer }) (refl, refl, λ x. x)
write_once-EndsKept (WriteResult.interrupted ∷ rs) n c h =
    kept c (record c { state = closed }) (Keeps-close c)
write_once-EndsKept (WriteResult.again ∷ rs) n c h =
    kept c (record c { state = closed }) (Keeps-close c)
write_once-EndsKept (WriteResult.error ∷ rs) n c h =
    kept c (record c { state = closed }) (Keeps-close c)

cleared : (c : Connection) (o : Option Connection) → EndsKept c o → EndsKept c (clear_sent o)
unfolding is_connected
cleared c o (d, h, k) = (record d { send_buffer = clear d.send_buffer }, ap clear_sent h, k)

EndsKept-if :
    (b : Bool) (c : Connection) (o u : Option Connection)
    → EndsKept c o
    → EndsKept c u
    → EndsKept c (if b then o else u)
EndsKept-if true c o u h k = h
EndsKept-if false c o u h k = k

-- `Send` of a text that does not start with a zero byte ends when the results of `write` suffice,
-- whatever the connection's state, and keeps the descriptor and the channel
pub send-EndsKept :
    (rs : List WriteResult) (c : Connection) (msg : Text) (n : ℕ)
    → length (c_string msg) ≡ suc n
    → settles rs (suc n) ≡ true
    → EndsKept c (send rs c msg)
unfolding send write set_send_buffer set_buf is_connected
send-EndsKept rs c msg n same h =
    let d = record c { send_buffer = c_string msg } in
    EndsKept-if (not (is_connected d)) c _ _ (kept c d (refl, refl, λ x. x)) (
      cleared c _ (
        EndsKept-if d.nonblocking c _ _
          (write_loop-EndsKept rs (c_string msg) d (ap (settles rs) same ∙ h))
          (write_once-EndsKept rs n d h)))

-- an operation that keeps the connection, when it ends
abbrev pub KeepsRun : Connection → Option Connection → Type 0
KeepsRun c o = (d : Connection) → o ≡ some d → Keeps c d

pub KeepsRun-some : (c d : Connection) → Keeps c d → KeepsRun c (some d)
KeepsRun-some c d k e h = Keeps-over c d e k (some-injective _ _ h)

pub KeepsRun-if :
    (b : Bool) (c : Connection) (o u : Option Connection)
    → KeepsRun c o
    → KeepsRun c u
    → KeepsRun c (if b then o else u)
KeepsRun-if true c o u h k = h
KeepsRun-if false c o u h k = k

write_loop-KeepsRun :
    (rs : List WriteResult) (msg : Text) (c : Connection) → KeepsRun c (write_loop rs msg c)
unfolding write_loop is_connected
write_loop-KeepsRun [] [] c = KeepsRun-some c c (Keeps-refl c)
write_loop-KeepsRun (r ∷ rs) [] c = KeepsRun-some c c (Keeps-refl c)
write_loop-KeepsRun [] (x ∷ xs) c = λ d h. cc h
write_loop-KeepsRun (accepted n ∷ rs) (x ∷ xs) c =
    write_loop-KeepsRun rs (drop n (x ∷ xs)) (record c { sent = c.sent ++ take n (x ∷ xs) })
write_loop-KeepsRun (WriteResult.interrupted ∷ rs) (x ∷ xs) c = write_loop-KeepsRun rs (x ∷ xs) c
write_loop-KeepsRun (WriteResult.again ∷ rs) (x ∷ xs) c = KeepsRun-some c c (Keeps-refl c)
write_loop-KeepsRun (WriteResult.error ∷ rs) (x ∷ xs) c =
    KeepsRun-some c (record c { state = closed }) (Keeps-close c)

write_blocking-Keeps : (r : WriteResult) (c : Connection) → Keeps c (write_blocking r c)
unfolding write_blocking is_connected
write_blocking-Keeps (accepted k) c = (refl, refl, λ x. x)
write_blocking-Keeps WriteResult.interrupted c = Keeps-close c
write_blocking-Keeps WriteResult.again c = Keeps-close c
write_blocking-Keeps WriteResult.error c = Keeps-close c

write_once-KeepsRun : (rs : List WriteResult) (c : Connection) → KeepsRun c (write_once rs c)
write_once-KeepsRun [] c = λ d h. cc h
write_once-KeepsRun (r ∷ rs) c = KeepsRun-some c (write_blocking r c) (write_blocking-Keeps r c)

cleared-KeepsRun :
    (c : Connection) (o : Option Connection) → KeepsRun c o → KeepsRun c (clear_sent o)
unfolding is_connected
cleared-KeepsRun c none k = λ d h. cc h
cleared-KeepsRun c (some d) k =
    KeepsRun-some c (record d { send_buffer = clear d.send_buffer }) (k d refl)

-- `Send` keeps the descriptor and the channel, and opens no connection that is closed
pub send-KeepsRun :
    (rs : List WriteResult) (c : Connection) (msg : Text) → KeepsRun c (send rs c msg)
unfolding send write set_send_buffer set_buf is_connected
send-KeepsRun rs c msg =
    let d = record c { send_buffer = c_string msg } in
    KeepsRun-if (not (is_connected d)) c _ _ (KeepsRun-some c d (refl, refl, λ x. x)) (
      cleared-KeepsRun c _ (
        KeepsRun-if d.nonblocking c _ _ (write_loop-KeepsRun rs (c_string msg) d)
          (write_once-KeepsRun rs d)))
