-- ===== src/Network/Channel.antt =====
-- `Channel` and `Epoll` of src/network/: the events that a descriptor is registered for.
pub mod Registered
use my_network_library.Network.Kernel.{Events, no_events, add, modify, delete, Kernel}
use my_network_library.Prelude.{
  ℕ, Bool, true, false, not, ◌&&◌, ◌||◌, Option, none, some, List, [], ◌∷◌, ◌++◌, ◌==◌,
  if◌then◌else◌,
}

pub record Channel : Type 0 where
  pub fd : ℕ
  pub listen_events : Events
  pub ready_events : Events
  pub in_epoll : Bool

unfoldable pub construct : ℕ → Channel
construct fd = record {
  fd = fd;
  listen_events = no_events;
  ready_events = no_events;
  in_epoll = false;
}

unfoldable pub set_in_epoll : Channel → Bool → Channel
set_in_epoll ch b = record ch { in_epoll = b }

module _ (K : Kernel) where
  abbrev pub with_epoll : Channel → Option K.Epoll → Option (Channel × K.Epoll)
  with_epoll ch none = none
  with_epoll ch (some p) = some (ch, p)

  -- `Epoll::UpdateChannel`; `none` when `ErrorIf` ends the program
  unfoldable pub update_channel : Channel → K.Epoll → Option (Channel × K.Epoll)
  unfolding set_in_epoll
  update_channel ch p =
      if not ch.in_epoll
      then with_epoll (set_in_epoll ch true) (K.control p add ch.fd ch.listen_events)
      else with_epoll ch (K.control p modify ch.fd ch.listen_events)

  -- `Epoll::DeleteChannel`
  unfoldable pub delete_channel : Channel → K.Epoll → Option (Channel × K.Epoll)
  unfolding set_in_epoll
  delete_channel ch p = with_epoll (set_in_epoll ch false) (K.control p delete ch.fd no_events)

  unfoldable pub enable_read : Channel → K.Epoll → Option (Channel × K.Epoll)
  unfolding update_channel
  enable_read ch p =
      update_channel
        (record ch { listen_events = record ch.listen_events { input = true; urgent = true } }) p

  unfoldable pub use_et : Channel → K.Epoll → Option (Channel × K.Epoll)
  unfolding update_channel
  use_et ch p =
      update_channel (record ch { listen_events = record ch.listen_events { edge = true } }) p

  unfoldable pub disable_all : Channel → K.Epoll → Option (Channel × K.Epoll)
  unfolding update_channel
  disable_all ch p = update_channel (record ch { listen_events = no_events }) p

unfoldable pub is_writing : Channel → Bool
is_writing ch = ch.listen_events.output

unfoldable pub set_ready_events : Channel → Events → Channel
set_ready_events ch e = record ch { ready_events = e }

-- the callbacks of a channel, in the order in which `HandleEvent` calls them
pub data Callback : Type 0 where
  on_close on_read on_write : Callback

abbrev pub when : Bool → Callback → List Callback
when b c = if b then c ∷ [] else []

-- `HandleEvent`, with whether there is a close callback
unfoldable pub handle_event : Bool → Channel → List Callback
handle_event has_close ch =
    let e = ch.ready_events in
    when (e.hangup && not e.input && has_close) on_close
    ++ when (e.input || e.urgent) on_read
    ++ when e.output on_write
