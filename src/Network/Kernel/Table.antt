-- ===== src/Network/Kernel/Table.antt =====
-- A kernel whose interest lists are association lists: the assumptions about `epoll_ctl` can hold.
use my_network_library.Prelude.{
  ℕ, ◌≡◌, refl, ap, inl, inr, Option, none, some, List, [], ◌∷◌, ◌==◌, if◌then◌else◌, arith,
  Bool-cases,
}
use my_network_library.Network.Kernel.{Events, Control, add, modify, delete, Kernel}

abbrev pub Table : Type 0
Table = List (ℕ × Events)

unfoldable pub registered : Table → ℕ → Option Events
registered [] fd = none
registered ((k, e) ∷ ks) fd = if k == fd then some e else registered ks fd

unfoldable pub replace : Table → ℕ → Events → Table
replace [] fd ev = []
replace ((k, e) ∷ ks) fd ev = if k == fd then (k, ev) ∷ ks else (k, e) ∷ replace ks fd ev

unfoldable pub erase : Table → ℕ → Table
erase [] fd = []
erase ((k, e) ∷ ks) fd = if k == fd then erase ks fd else (k, e) ∷ erase ks fd

abbrev pub control_by : Table → Control → ℕ → Events → Option Events → Option Table
control_by p add fd ev none = some ((fd, ev) ∷ p)
control_by p add fd ev (some e) = none
control_by p modify fd ev none = none
control_by p modify fd ev (some e) = some (replace p fd ev)
control_by p delete fd ev none = none
control_by p delete fd ev (some e) = some (erase p fd)

unfoldable pub control : Table → Control → ℕ → Events → Option Table
control p c fd ev = control_by p c fd ev (registered p fd)

registered-replace :
    (p : Table) (fd : ℕ) (ev e : Events)
    → registered p fd ≡ some e
    → (g : ℕ) → registered (replace p fd ev) g ≡ (if fd == g then some ev else registered p g)
unfolding registered replace
registered-replace [] fd ev e h g = cc
registered-replace ((k, d) ∷ ks) fd ev e h g = elim (Bool-cases (k == fd)) [
  | inl t ↦ ground arith
  | inr t ↦ ground (arith, registered-replace ks fd ev e (rw t at h) g)
]

registered-erase :
    (p : Table) (fd g : ℕ) → registered (erase p fd) g ≡ (if fd == g then none else registered p g)
unfolding registered erase
registered-erase [] fd g = ground arith
registered-erase ((k, d) ∷ ks) fd g = ground (arith, registered-erase ks fd g)

pub table_add :
    (p : Table) (fd : ℕ) (ev : Events)
    → registered p fd ≡ none
    → (q : Table) × (control p add fd ev ≡ some q)
      × ((g : ℕ) → registered q g ≡ (if fd == g then some ev else registered p g))
unfolding control
table_add p fd ev h = ((fd, ev) ∷ p, ap (control_by p add fd ev) h, λ g. unfold registered in refl)

pub table_modify :
    (p : Table) (fd : ℕ) (ev e : Events)
    → registered p fd ≡ some e
    → (q : Table) × (control p modify fd ev ≡ some q)
      × ((g : ℕ) → registered q g ≡ (if fd == g then some ev else registered p g))
unfolding control
table_modify p fd ev e h =
    (replace p fd ev, ap (control_by p modify fd ev) h, registered-replace p fd ev e h)

pub table_delete :
    (p : Table) (fd : ℕ) (ev e : Events)
    → registered p fd ≡ some e
    → (q : Table) × (control p delete fd ev ≡ some q)
      × ((g : ℕ) → registered q g ≡ (if fd == g then none else registered p g))
unfolding control
table_delete p fd ev e h = (erase p fd, ap (control_by p delete fd ev) h, registered-erase p fd)

abbrev pub table_kernel : Kernel
table_kernel = record {
  Epoll = Table;
  registered = registered;
  control = control;
  control-add = table_add;
  control-modify = table_modify;
  control-delete = table_delete;
}
