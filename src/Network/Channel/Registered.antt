-- ===== src/Network/Channel/Registered.antt =====
-- A channel's flag of src/network/Channel.cpp agrees with the kernel's interest list.
use mathlib.Core.Path.{subst}
use my_network_library.Prelude.{
  ℕ, ◌≡◌, refl, sym, ap, ◌∙◌, Bool, true, false, not, Option, none, some, ◌==◌, if◌then◌else◌,
  arith,
}
use my_network_library.Network.Kernel.{Events, no_events, Control, add, modify, delete, Kernel}
use my_network_library.Network.Channel.{
  Channel, update_channel, delete_channel, set_in_epoll, with_epoll,
}

abbrev pub is_registered : Option Events → Bool
is_registered none = false
is_registered (some e) = true

module _ (K : Kernel) where
  -- `in_epoll_` says whether the descriptor is registered
  abbrev pub Agrees : Channel → K.Epoll → Type 0
  Agrees ch p = is_registered (K.registered p ch.fd) ≡ ch.in_epoll

  -- what a call of `epoll_ctl` for `fd` leaves: this registration, and all others as they were
  abbrev pub Registers : K.Epoll → K.Epoll → ℕ → Option Events → Type 0
  Registers before after fd e =
      (g : ℕ) → K.registered after g ≡ (if fd == g then e else K.registered before g)

  pub Registers-mine :
      (p q : K.Epoll) (fd : ℕ) (e : Option Events) → Registers p q fd e → K.registered q fd ≡ e
  Registers-mine p q fd e r = r fd ∙ ground arith

module _ (K : Kernel) (ch : Channel) (p : K.Epoll) where
  -- a run that ends with this flag and registration, the listened events as given
  pub record Updated (run : Option (Channel × K.Epoll)) (next : Channel) (e : Option Events)
      : Type 0 where
    pub epoll : K.Epoll
    pub ran : run ≡ some (next, epoll)
    pub agrees : Agrees K next epoll
    pub registers : Registers K p epoll ch.fd e

  ends :
      (c : Control) (ev : Events) (e : Option Events) (next : Channel) (q : K.Epoll)
      → K.control p c ch.fd ev ≡ some q
      → Registers K p q ch.fd e
      → next.fd ≡ ch.fd
      → is_registered e ≡ next.in_epoll
      → Updated (with_epoll K next (K.control p c ch.fd ev)) next e
  ends c ev e next q ran reg same flag = record {
    epoll = q;
    ran = ap (with_epoll K next) ran;
    agrees =
        ap (λ g. is_registered (K.registered q g)) same
        ∙ ap is_registered (Registers-mine K p q ch.fd e reg)
        ∙ flag;
    registers = reg;
  }

  update_by :
      (b : Bool) (o : Option Events)
      → K.registered p ch.fd ≡ o
      → is_registered o ≡ b
      → ch.in_epoll ≡ b
      → Updated
          (if not b
            then with_epoll K (set_in_epoll ch true) (K.control p add ch.fd ch.listen_events)
            else with_epoll K ch (K.control p modify ch.fd ch.listen_events))
          (set_in_epoll ch true)
          (some ch.listen_events)
  unfolding set_in_epoll
  update_by true none h i j = cc
  update_by false (some e) h i j = cc
  update_by false none h i j =
      let (q, ran, reg) = K.control-add p ch.fd ch.listen_events h in
      ends add ch.listen_events (some ch.listen_events) (set_in_epoll ch true) q ran reg refl refl
  update_by true (some e) h i j =
      let (q, ran, reg) = K.control-modify p ch.fd ch.listen_events e h in
      let marked : ch ≡ set_in_epoll ch true = ap (set_in_epoll ch) j in
      subst
        (λ (c : Channel).
          Updated (with_epoll K ch (K.control p modify ch.fd ch.listen_events)) c
            (some ch.listen_events))
        marked (ends modify ch.listen_events (some ch.listen_events) ch q ran reg refl (sym j))

  -- When the flag agrees with the interest list, `UpdateChannel` does not fail: it registers the
  -- channel's events, sets the flag and leaves the registration of every other descriptor alone.
  pub update_channel-Updated :
      Agrees K ch p → Updated (update_channel K ch p) (set_in_epoll ch true) (some ch.listen_events)
  unfolding update_channel
  update_channel-Updated a = update_by ch.in_epoll (K.registered p ch.fd) refl a refl

  delete_by :
      (o : Option Events)
      → K.registered p ch.fd ≡ o
      → is_registered o ≡ true
      → Updated
          (with_epoll K (set_in_epoll ch false) (K.control p delete ch.fd no_events))
          (set_in_epoll ch false)
          none
  unfolding set_in_epoll
  delete_by none h i = cc
  delete_by (some e) h i =
      let (q, ran, reg) = K.control-delete p ch.fd no_events e h in
      ends delete no_events none (set_in_epoll ch false) q ran reg refl refl

  -- When the flag is set and agrees with the interest list, `DeleteChannel` does not fail: it removes
  -- the registration, resets the flag and leaves the registration of every other descriptor alone.
  pub delete_channel-Updated :
      Agrees K ch p
      → ch.in_epoll ≡ true
      → Updated (delete_channel K ch p) (set_in_epoll ch false) none
  unfolding delete_channel
  delete_channel-Updated a t = delete_by (K.registered p ch.fd) refl (a ∙ t)
