-- ===== src/Network/Reactor/Ends.antt =====
-- The handling of a channel's events in src/network/ ends, and keeps the server sound.
use mathlib.Core.Path.{subst}
use my_network_library.Prelude.{
  ℕ, ◌≡◌, refl, sym, ap, ◌∙◌, inl, inr, Bool, true, false, not, ◌&&◌, ◌||◌, Option, none, some,
  List, [], ◌∷◌, ◌++◌, ◌==◌, if◌then◌else◌, arith, Bool-cases, Option-cases,
}
use my_network_library.Network.Kernel.{Events, Kernel}
use my_network_library.Network.Channel.{
  Channel, set_ready_events, handle_event, on_close, on_read, on_write, when,
}
use my_network_library.Network.Channel
use my_network_library.Network.Connection.{
  Connection, Callback, ReadResult, bytes, interrupted, again, eof, error, read, read_nonblocking,
  read_once, is_connected,
}
use my_network_library.Network.Connection.Registered.{IsSound}
use my_network_library.Network.Server.{Entry, Server, find_entry, update_entry, message}
use my_network_library.Network.Server.Entries.{
  Good, Fits, empty, entry, Fits-found, update_entry-none,
}
use my_network_library.Network.Server.Sound.{IsSoundServer, at, message-Kept}
use my_network_library.Network.Server.Check.{one-Deleted}
use my_network_library.Network.Reactor.{
  set_ready, run_callback, run_callbacks, handle_channel, handle_found,
}

-- the results of `read` end with one that ends the loop
abbrev pub stops : List ReadResult → Bool
stops [] = false
stops (bytes t ∷ rs) = stops rs
stops (interrupted ∷ rs) = stops rs
stops (again ∷ rs) = true
stops (eof ∷ rs) = true
stops (error ∷ rs) = true

abbrev EndsRead : Option (Connection × Bool) → Type 0
EndsRead o = (c : Connection) × (b : Bool) × (o ≡ some (c, b))

read_nonblocking-ends :
    (rs : List ReadResult) (c : Connection) → stops rs ≡ true → EndsRead (read_nonblocking rs c)
unfolding read_nonblocking
read_nonblocking-ends [] c h = cc
read_nonblocking-ends (bytes t ∷ rs) c h = read_nonblocking-ends rs _ h
read_nonblocking-ends (interrupted ∷ rs) c h = read_nonblocking-ends rs c h
read_nonblocking-ends (again ∷ rs) c h = (_, _, refl)
read_nonblocking-ends (eof ∷ rs) c h = (_, _, refl)
read_nonblocking-ends (error ∷ rs) c h = (_, _, refl)

read_once-ends :
    (rs : List ReadResult) (c : Connection) → stops rs ≡ true → EndsRead (read_once rs c)
read_once-ends [] c h = cc
read_once-ends (r ∷ rs) c h = (_, _, refl)

EndsRead-if :
    (b : Bool) (o u : Option (Connection × Bool))
    → EndsRead o
    → EndsRead u
    → EndsRead (if b then o else u)
EndsRead-if true o u h k = h
EndsRead-if false o u h k = k

read-ends : (rs : List ReadResult) (c : Connection) → stops rs ≡ true → EndsRead (read rs c)
unfolding read
read-ends rs c h =
    EndsRead-if (not (is_connected c)) _ _ (_, _, refl)
      (EndsRead-if c.nonblocking _ _ (read_nonblocking-ends rs _ h) (read_once-ends rs _ h))

-- a user's callback that ends
abbrev pub IsTotal : Callback → Type 0
IsTotal cb = (c : Connection) → (d : Connection) × (cb.run c ≡ some d)

-- among the callbacks of a channel is not that for writing
abbrev NoWrite : List Channel.Callback → Type 0
NoWrite [] = Unit
NoWrite (on_close ∷ cs) = NoWrite cs
NoWrite (on_read ∷ cs) = NoWrite cs
NoWrite (on_write ∷ cs) = true ≡ false

handle_event-NoWrite :
    (ch : Channel) → ch.ready_events.output ≡ false → NoWrite (handle_event true ch)
unfolding handle_event
handle_event-NoWrite ch h = rw h (
    two (ch.ready_events.hangup && not ch.ready_events.input && true)
      (ch.ready_events.input || ch.ready_events.urgent))
  where
    two : (a b : Bool) → NoWrite (when a on_close ++ when b on_read ++ [])
    two true true = tt
    two true false = tt
    two false true = tt
    two false false = tt

-- the kernel has not reported that the connection can be written to, which it is not asked for
abbrev pub NoOutput : Option Entry → Type 0
NoOutput none = Unit
NoOutput (some e) = e.connection.channel.ready_events.output ≡ false

module _ (K : Kernel) where
  -- a run that ends in a sound server
  abbrev pub EndsSound : Option (Server K) → Type 0
  EndsSound o = (s : Server K) × (o ≡ some s) × IsSoundServer K s

  pub Fits-empty : (s : Server K) → s.connections ≡ [] → IsSoundServer K s
  Fits-empty s h = subst (Fits K s.reactors s.size) (sym h) empty

  -- the events that are stored in a channel do not matter
  ready-IsSound :
      (fd : ℕ) (c : Connection) (p : K.Epoll) (ev : Events)
      → IsSound K fd c p
      → IsSound K fd (record c { channel = set_ready_events c.channel ev }) p
  unfolding set_ready_events is_connected
  ready-IsSound fd c p ev s = record {
    agrees = s.agrees;
    number = s.number;
    channel_number = s.channel_number;
    live = s.live;
  }

  Fits-replace :
      (f : ℕ → K.Epoll) (n : ℕ) (es : List Entry) (e : Entry)
      → Good K f n e
      → Fits K f n es
      → Fits K f n (update_entry e es)
  unfolding update_entry
  Fits-replace f n [] e g empty = empty
  Fits-replace f n (d ∷ es) e g (entry good alone fits) = elim (Bool-cases (d.key == e.key)) [
    | inl t ↦ rw t (entry g (ap (λ k. find_entry k es) (ground (arith, t)) ∙ alone) fits)
    | inr t ↦ rw t (entry good (update_entry-none d.key e es alone) (Fits-replace f n es e g fits))
  ]

  pub set_ready-Sound :
      (fd : ℕ) (ev : Events) (s : Server K)
      → IsSoundServer K s
      → IsSoundServer K (set_ready K fd ev s)
  unfolding set_ready
  set_ready-Sound fd ev s h = elim (Option-cases (at K s fd)) [
    | inl none_there ↦ rw none_there h
    | inr (e, found) ↦
        (let good = Fits-found K s.reactors s.size fd s.connections e found h in
          let e' = record e {
            connection = record e.connection { channel = set_ready_events e.connection.channel ev };
          } in
          rw found (
            Fits-replace s.reactors s.size s.connections e'
              (record {
                sound = ready-IsSound e.key e.connection (s.reactors e.reactor) ev good.sound;
                chosen = good.chosen;
              })
              h))
  ]

  module _ (cb : Callback) (total : IsTotal cb) where
    message-ends :
        (rs : List ReadResult) (fd : ℕ) (s : Server K)
        → stops rs ≡ true
        → IsSoundServer K s
        → EndsSound (message K cb rs s fd)
    unfolding message
    message-ends rs fd s h sound = elim (Option-cases (at K s fd)) [
      | inl absent ↦ (s, rw absent refl, sound)
      | inr (e, found) ↦
          (let (c, b, ran) = read-ends rs e.connection h in
            let (d, r) = message-Kept K cb rs s fd e c b sound found ran total in
            (r.next, unfold message in r.ran, r.sound))
    ]

    run_callbacks-ends :
        (rs : List ReadResult) (cs : List Channel.Callback) (fd : ℕ) (s : Server K)
        → stops rs ≡ true
        → NoWrite cs
        → IsSoundServer K s
        → EndsSound (run_callbacks K cb rs cs fd s)
    unfolding run_callbacks run_callback
    run_callbacks-ends rs [] fd s h w sound = (s, refl, sound)
    run_callbacks-ends rs (on_close ∷ cs) fd s h w sound =
        let d = one-Deleted K s fd sound in
        let (s', ran, sound') = run_callbacks-ends rs cs fd d.next h w d.sound in
        (s', rw (d.ran) ran, sound')
    run_callbacks-ends rs (on_read ∷ cs) fd s h w sound =
        let (t, ran, sound₁) = message-ends rs fd s h sound in
        let (s', ran', sound') = run_callbacks-ends rs cs fd t h w sound₁ in
        (s', rw ran ran', sound')
    run_callbacks-ends rs (on_write ∷ cs) fd s h w sound = cc w

    pub handle_channel-ends :
        (rs : List ReadResult) (fd : ℕ) (s : Server K)
        → stops rs ≡ true
        → NoOutput (at K s fd)
        → IsSoundServer K s
        → EndsSound (handle_channel K cb rs fd s)
    unfolding handle_channel
    handle_channel-ends rs fd s h w sound = found_or_not (at K s fd) w
      where
        found_or_not : (o : Option Entry) → NoOutput o → EndsSound (handle_found K cb rs fd s o)
        found_or_not none w = (s, refl, sound)
        found_or_not (some e) w =
            run_callbacks-ends rs (handle_event true e.connection.channel) fd s h
              (handle_event-NoWrite e.connection.channel w) sound
