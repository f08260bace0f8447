-- ===== src/Network/Kernel.antt =====
-- What src/network/Epoll.cpp and Channel.cpp take from the kernel: the events of a descriptor, and
-- `epoll_ctl` on the interest list of an epoll instance.
pub mod Table
use my_network_library.Prelude.{ℕ, ◌≡◌, Bool, true, false, Option, none, some, ◌==◌, if◌then◌else◌}

-- the bits EPOLLIN, EPOLLPRI, EPOLLOUT, EPOLLHUP and EPOLLET
pub record Events : Type 0 where
  pub input : Bool
  pub urgent : Bool
  pub output : Bool
  pub hangup : Bool
  pub edge : Bool

abbrev pub no_events : Events
no_events = record { input = false; urgent = false; output = false; hangup = false; edge = false }

-- the operations of `epoll_ctl`
pub data Control : Type 0 where
  add modify delete : Control

-- `epoll_ctl` as its manual page describes it, of open descriptors and while the kernel has memory:
-- adding fails with EEXIST, changing and deleting fail with ENOENT, and the other descriptors of
-- the instance stay as they are. `none` stands for -1.
pub record Kernel : Type 1 where
  pub Epoll : Type 0
  pub registered : Epoll → ℕ → Option Events
  pub control : Epoll → Control → ℕ → Events → Option Epoll
  pub control-add :
      (p : Epoll) (fd : ℕ) (ev : Events)
      → registered p fd ≡ none
      → (q : Epoll) × (control p add fd ev ≡ some q)
        × ((g : ℕ) → registered q g ≡ (if fd == g then some ev else registered p g))
  pub control-modify :
      (p : Epoll) (fd : ℕ) (ev e : Events)
      → registered p fd ≡ some e
      → (q : Epoll) × (control p modify fd ev ≡ some q)
        × ((g : ℕ) → registered q g ≡ (if fd == g then some ev else registered p g))
  pub control-delete :
      (p : Epoll) (fd : ℕ) (ev e : Events)
      → registered p fd ≡ some e
      → (q : Epoll) × (control p delete fd ev ≡ some q)
        × ((g : ℕ) → registered q g ≡ (if fd == g then none else registered p g))
