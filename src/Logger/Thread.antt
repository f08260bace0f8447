-- ===== src/Logger/Thread.antt =====
-- `Thread` and `CurrentThread` of src/logger/: the bookkeeping around a system thread.
use mathlib.Core.Path.{subst}
use mathlib.Core.Option.{some-injective}
use my_network_library.Prelude.{
  ◌≢◌, ℕ, ◌+◌, ◌≡◌, refl, Bool, true, false, not, ◌&&◌, Option, none, some, [], ◌∷◌, ◌++◌, ◌==◌,
  if◌then◌else◌, arith,
}
use my_network_library.Prelude.Text.{Text, codes}
use my_network_library.Logger.LogStream.{pos}
use my_network_library.Logger.LogStream.Decimal.{decimal}

-- `CurrentThread`: the cached number of the thread, 0 when it is not known yet, over what the system
-- call `gettid` returns; also how often that was called
pub record Cache : Type 0 where
  pub cached_tid : ℕ
  pub calls : ℕ

unfoldable pub cache_tid : ℕ → Cache → Cache
cache_tid gettid c =
    if c.cached_tid == 0 then record { cached_tid = gettid; calls = c.calls + 1 } else c

unfoldable pub tid : ℕ → Cache → ℕ × Cache
unfolding cache_tid
tid gettid c = let c' = if c.cached_tid == 0 then cache_tid gettid c else c in (c'.cached_tid, c')

-- the states of the system thread behind `thread_`
pub data Handle : Type 0 where
  absent running joined detached : Handle

pub record Thread : Type 0 where
  pub started : Bool
  pub is_joined : Bool
  pub handle : Handle
  pub tid : ℕ
  pub name : Text

abbrev is_empty_name : Text → Bool
is_empty_name [] = true
is_empty_name (x ∷ xs) = false

-- `setDefaultName`, with `numCreated_`
unfoldable pub default_name : ℕ → Text → Text
default_name num name = if is_empty_name name then codes "Thread" ++ decimal (pos num) else name

-- the constructor: the thread, and `numCreated_`
unfoldable pub construct : ℕ → Text → Thread × ℕ
unfolding default_name
construct created name = (
  record {
    started = false;
    is_joined = false;
    handle = absent;
    tid = 0;
    name = default_name (created + 1) name;
  },
  created + 1,
)

-- `start`, which waits until the new thread has stored its number; `none` when `thread_` has a running
-- thread, whose destructor then ends the program
unfoldable pub start : ℕ → Thread → Option Thread
start gettid t = elim t.handle [
  | running ↦ none
  | absent ↦ some (record t { started = true; handle = running; tid = gettid })
  | joined ↦ some (record t { started = true; handle = running; tid = gettid })
  | detached ↦ some (record t { started = true; handle = running; tid = gettid })
]

-- `join`; `none` when there is no thread to join
unfoldable pub join : Thread → Option Thread
join t = elim t.handle [
  | running ↦ some (record t { is_joined = true; handle = joined })
  | absent ↦ none
  | joined ↦ none
  | detached ↦ none
]

-- the destructor: what becomes of the system thread
unfoldable pub release : Thread → Handle
release t = if t.started && not t.is_joined then detached else t.handle

-- the flags say whether the system thread is to be detached
abbrev pub Matches : Thread → Type 0
Matches t = (t.handle ≡ running → (t.started && not t.is_joined) ≡ true)

-- A thread made by the constructor has flags that match, and `join` keeps that, as `start` does when
-- the thread was not joined before.
pub construct-Matches : (created : ℕ) (name : Text) → Matches (construct created name).0
unfolding construct
construct-Matches created name h = cc h

pub start-Matches :
    (gettid : ℕ) (t t' : Thread) → t.is_joined ≡ false → start gettid t ≡ some t' → Matches t'
unfolding start
start-Matches gettid t t' j h = by_handle t.handle h
  where
    fresh : Thread
    fresh = record t { started = true; handle = running; tid = gettid }

    by_handle :
        (k : Handle)
        → (elim k [
          | running ↦ none
          | absent ↦ some fresh
          | joined ↦ some fresh
          | detached ↦ some fresh
        ])
          ≡ some t'
        → Matches t'
    by_handle running e = cc e
    by_handle absent e = subst Matches (some-injective _ _ e) (λ r. rw j refl)
    by_handle joined e = subst Matches (some-injective _ _ e) (λ r. rw j refl)
    by_handle detached e = subst Matches (some-injective _ _ e) (λ r. rw j refl)

-- no system thread is left running and joinable when its `Thread` goes, which would end the program
pub release-Matches : (t : Thread) → Matches t → release t ≢ running
unfolding release
release-Matches t m h = by_flags (t.started && not t.is_joined) refl h
  where
    by_flags :
        (b : Bool)
        → (t.started && not t.is_joined) ≡ b
        → (if b then detached else t.handle) ≢ running
    by_flags true e h = cc h
    by_flags false e h = cc (m h, e)

-- once the number is known the system is not asked again
pub tid-tid :
    (gettid again : ℕ) (c : Cache) → gettid ≢ 0 → tid again (tid gettid c).1 ≡ tid gettid c
unfolding tid cache_tid
tid-tid gettid again c h = ground (arith, h)
