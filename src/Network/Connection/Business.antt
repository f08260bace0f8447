-- ===== src/Network/Connection/Business.antt =====
-- The read callback `Business` of src/network/Connection.cpp keeps a connection sound.
use mathlib.Core.Path.{subst}
use my_network_library.Prelude.{
  ℕ, ◌≡◌, refl, ap, ◌∙◌, Bool, true, false, not, ◌||◌, none, some, List, ◌==◌, if◌then◌else◌,
}
use my_network_library.Network.Kernel.{Kernel}
use my_network_library.Network.Channel.{Channel}
use my_network_library.Network.Channel.Registered.{is_registered, Registers-mine}
use my_network_library.Network.Connection.{
  Connection, is_connected, Callback, ReadResult, read, delete_connection, business, close_if,
}
use my_network_library.Network.Connection.Keeps.{Keeps, read-Keeps}
use my_network_library.Network.Connection.Registered.{
  IsSound, Ended, Registers-others, deleted, Deletion, delete_connection-Deletion,
}

module _ (K : Kernel) where
  live-Keeps : (b v w : Bool) → (b || not v) ≡ true → (v ≡ false → w ≡ false) → (b || not w) ≡ true
  live-Keeps true v w h k = refl
  live-Keeps false true w h k = cc
  live-Keeps false false w h k = rw (k refl)

  pub IsSound-Keeps :
      (fd : ℕ) (c d : Connection) (p : K.Epoll) → Keeps c d → IsSound K fd c p → IsSound K fd d p
  unfolding is_connected
  IsSound-Keeps fd c d p (same, over, open') s = record {
    agrees = rw over s.agrees;
    number = same ∙ s.number;
    channel_number = ap (λ (ch : Channel). ch.fd) over ∙ s.channel_number;
    live = rw over (live-Keeps c.channel.in_epoll (is_connected c) (is_connected d) s.live open');
  }

  deleted-IsSound :
      (fd : ℕ) (c : Connection) (p : K.Epoll) (s : IsSound K fd c p) (e : Deletion K c p)
      → IsSound K fd (deleted K c) e.epoll
  unfolding is_connected
  deleted-IsSound fd c p s e = record {
    agrees = ap is_registered (Registers-mine K p e.epoll c.channel.fd none e.registers);
    number = s.number;
    channel_number = s.channel_number;
    live = refl;
  }

  -- `deleteConnection` of a sound connection leaves a sound connection
  pub delete_connection-Ended :
      (fd : ℕ) (c : Connection) (p : K.Epoll)
      → IsSound K fd c p
      → (e : Ended K fd p (delete_connection K c p)) × (K.registered e.epoll fd ≡ none)
        × (e.next ≡ deleted K c)
  delete_connection-Ended fd c p s =
      let e = delete_connection-Deletion K c p s.agrees in
      let r =
        subst (λ g. (h : ℕ) → K.registered e.epoll h ≡ (if g == h then none else K.registered p h))
          s.channel_number e.registers in
      (
        record {
          next = deleted K c;
          epoll = e.epoll;
          ran = e.ran;
          sound = deleted-IsSound fd c p s e;
          others = Registers-others K p e.epoll fd none r;
        },
        Registers-mine K p e.epoll fd none r,
        refl,
      )

  closed_or_kept :
      (fd : ℕ) (c : Connection) (p : K.Epoll) (b : Bool)
      → IsSound K fd c p
      → (e : Ended K fd p (close_if K b c p)) × (b ≡ true → K.registered e.epoll fd ≡ none)
        × (b ≡ false → K.registered e.epoll fd ≡ K.registered p fd)
  closed_or_kept fd c p true s =
      let (e, off, over) = delete_connection-Ended fd c p s in (e, λ h. off, λ h. cc)
  closed_or_kept fd c p false s = (
    record { next = c; epoll = p; ran = refl; sound = s; others = λ g. refl },
    λ h. cc,
    λ h. refl,
  )

  -- When the reading ends and the user's callback does, `Business` ends in a sound connection and
  -- touches no other registration. When the reading met the end of the stream or an error, the
  -- connection is out of the interest list before the callback runs, and else stays as it was there.
  pub business-Ended :
      (cb : Callback) (rs : List ReadResult) (fd : ℕ) (c c₁ : Connection) (p : K.Epoll) (b : Bool)
      → IsSound K fd c p
      → read rs c ≡ some (c₁, b)
      → ((d : Connection) → (e : Connection) × (cb.run d ≡ some e))
      → (e : Ended K fd p (business K cb rs c p)) × (b ≡ true → K.registered e.epoll fd ≡ none)
        × (b ≡ false → K.registered e.epoll fd ≡ K.registered p fd)
  unfolding business
  business-Ended cb rs fd c c₁ p b s h total =
      let (e, off, on) =
        closed_or_kept fd c₁ p b (IsSound-Keeps fd c c₁ p (read-Keeps rs c c₁ b h) s) in
      let (d, ran) = total e.next in
      (
        record {
          next = d;
          epoll = e.epoll;
          ran = rw (h, e.ran, ran) refl;
          sound = IsSound-Keeps fd e.next d e.epoll (cb.keeps e.next d ran) e.sound;
          others = e.others;
        },
        off,
        on,
      )
