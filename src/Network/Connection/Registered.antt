-- ===== src/Network/Connection/Registered.antt =====
-- The connections of src/network/Connection.cpp and the interest list of their loop.
use my_network_library.Prelude.{
  ℕ, ◌≡◌, refl, sym, ap, ◌∙◌, Bool, true, false, not, ◌||◌, Option, none, some, ◌==◌, if◌then◌else◌,
  arith, Bool-cases, inl, inr,
}
use my_network_library.Network.Kernel.{Events, no_events, Kernel}
use my_network_library.Network.Channel.{
  Channel, set_in_epoll, enable_read, use_et, disable_all, update_channel, delete_channel,
}
use my_network_library.Network.Channel
use my_network_library.Network.Channel.Registered.{
  is_registered, Agrees, Registers, update_channel-Updated, delete_channel-Updated,
}
use my_network_library.Network.Connection.{
  Connection, closed, connected_over, is_connected, construct, delete_connection,
}

module _ (K : Kernel) where
  twice :
      (p q r : K.Epoll) (fd : ℕ) (d e : Option Events)
      → Registers K p q fd d
      → Registers K q r fd e
      → Registers K p r fd e
  twice p q r fd d e h k g = k g ∙ ap (λ x. if fd == g then e else x) (h g) ∙ ground arith

  -- what a connection keeps, beside the interest list of its loop: the flag of its channel agrees,
  -- its descriptor is the channel's, and out of the list it is not connected
  pub record IsSound (fd : ℕ) (c : Connection) (p : K.Epoll) : Type 0 where
    pub agrees : Agrees K c.channel p
    pub number : c.fd ≡ fd
    pub channel_number : c.channel.fd ≡ fd
    pub live : (c.channel.in_epoll || not (is_connected c)) ≡ true

  -- a sound connection that is connected is registered
  pub IsSound-is_registered :
      (fd : ℕ) (c : Connection) (p : K.Epoll)
      → IsSound fd c p
      → is_connected c ≡ true
      → is_registered (K.registered p fd) ≡ true
  IsSound-is_registered fd c p s h =
      ap (λ k. is_registered (K.registered p k)) (sym s.channel_number)
      ∙ s.agrees
      ∙ flag c.channel.in_epoll (is_connected c) s.live h
    where
      flag : (b v : Bool) → (b || not v) ≡ true → v ≡ true → b ≡ true
      flag true v r t = refl
      flag false v r t = cc (rw t at r)

  -- the registrations of all descriptors but `fd` are the same
  abbrev pub Elsewhere : K.Epoll → K.Epoll → ℕ → Type 0
  Elsewhere p q fd =
      (g : ℕ)
      → (if fd == g then none else K.registered q g) ≡ (if fd == g then none else K.registered p g)

  -- a run that ends in a sound connection, and touches the registration of `fd` only
  pub record Ended (fd : ℕ) (p : K.Epoll) (run : Option (Connection × K.Epoll)) : Type 0 where
    pub next : Connection
    pub epoll : K.Epoll
    pub ran : run ≡ some (next, epoll)
    pub sound : IsSound fd next epoll
    pub others : Elsewhere p epoll fd

  pub Registers-others :
      (p q : K.Epoll) (fd : ℕ) (e : Option Events) → Registers K p q fd e → Elsewhere p q fd
  Registers-others p q fd e r g = elim (Bool-cases (fd == g)) [
    | inl t ↦ rw t refl
    | inr t ↦ rw t (r g ∙ rw t refl)
  ]

  abbrev reading : Channel → Channel
  reading ch = record ch { listen_events = record ch.listen_events { input = true; urgent = true } }

  abbrev edged : Channel → Channel
  edged ch = record ch { listen_events = record ch.listen_events { edge = true } }

  -- The constructor, of a descriptor that is not registered, does not fail: it gives a connected
  -- connection whose channel is registered, and leaves every other registration alone.
  pub construct-Ended :
      (nonblocking : Bool) (fd : ℕ) (p : K.Epoll)
      → K.registered p fd ≡ none
      → (e : Ended fd p (construct K nonblocking fd p)) × (is_connected e.next ≡ true)
  unfolding is_connected construct enable_read use_et Channel.construct set_in_epoll
  construct-Ended nonblocking fd p h =
      let ch = Channel.construct fd in
      let u = update_channel-Updated K (reading ch) p (ap is_registered h) in
      let ch₁ = set_in_epoll (reading ch) true in
      let v = update_channel-Updated K (edged ch₁) u.epoll u.agrees in
      let ch₂ = set_in_epoll (edged ch₁) true in
      (
        record {
          next = connected_over nonblocking ch₂;
          epoll = v.epoll;
          ran = rw (u.ran, v.ran);
          sound = record { agrees = v.agrees; number = refl; channel_number = refl; live = refl };
          others = Registers-others p v.epoll fd (some ch₂.listen_events) (
              twice p u.epoll v.epoll fd (some (reading ch).listen_events) (some ch₂.listen_events)
                u.registers v.registers);
        },
        refl,
      )

  -- the connection that `deleteConnection` leaves
  abbrev pub deleted : Connection → Connection
  deleted c = record c {
    state = closed;
    channel = record c.channel { listen_events = no_events; in_epoll = false };
  }

  pub record Deletion (c : Connection) (p : K.Epoll) : Type 0 where
    pub epoll : K.Epoll
    pub ran : delete_connection K c p ≡ some (deleted c, epoll)
    pub registers : Registers K p epoll c.channel.fd none

  -- `deleteConnection` does not fail, also on a connection that is deleted already: it closes the
  -- connection, and of the registrations removes its own and no other.
  pub delete_connection-Deletion :
      (c : Connection) (p : K.Epoll) → Agrees K c.channel p → Deletion c p
  unfolding delete_connection disable_all set_in_epoll
  delete_connection-Deletion c p a =
      let ch = record c.channel { listen_events = no_events } in
      let u = update_channel-Updated K ch p a in
      let ch₁ = set_in_epoll ch true in
      let v = delete_channel-Updated K ch₁ u.epoll u.agrees refl in
      record {
        epoll = v.epoll;
        ran = rw (u.ran, v.ran);
        registers =
            twice p u.epoll v.epoll c.channel.fd (some no_events) none u.registers v.registers;
      }
