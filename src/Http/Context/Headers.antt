-- ===== src/Http/Context/Headers.antt =====
-- Headers with different fields are kept by src/http/HttpRequest.h in the order in which they come.
use mathlib.Core.List.{append-nil, append_assoc}
use my_network_library.Prelude.{◌≡◌, refl, sym, ap, ◌∙◌, false, [], ◌∷◌, ◌++◌}
use my_network_library.Prelude.Text.{Text, text_eq}
use my_network_library.Http.Request.{Headers, set_header}
use my_network_library.Http.Context.RoundTrip.{set_headers}

-- no header after one with the field `k` has that field
abbrev pub Differs : Text → Headers → Type 0
Differs k [] = Unit
Differs k ((f, v) ∷ hs) = (text_eq k f ≡ false) × Differs k hs

abbrev pub AreDistinct : Headers → Type 0
AreDistinct [] = Unit
AreDistinct ((k, v) ∷ hs) = Differs k hs × AreDistinct hs

Differs-middle :
    (k f v : Text) (acc hs : Headers) → Differs k (acc ++ (f, v) ∷ hs) → text_eq k f ≡ false
Differs-middle k f v [] hs d = d.0
Differs-middle k f v ((g, w) ∷ acc) hs d = Differs-middle k f v acc hs d.1

set_header-last :
    (f v : Text) (acc hs : Headers)
    → AreDistinct (acc ++ (f, v) ∷ hs)
    → set_header f v acc ≡ acc ++ (f, v) ∷ []
unfolding set_header
set_header-last f v [] hs d = refl
set_header-last f v ((k, w) ∷ acc) hs d =
    rw (Differs-middle k f v acc hs d.0) (ap (λ t. (k, w) ∷ t) (set_header-last f v acc hs d.1))

pub set_headers-AreDistinct :
    (hs acc : Headers) → AreDistinct (acc ++ hs) → set_headers hs acc ≡ acc ++ hs
unfolding set_headers
set_headers-AreDistinct [] acc d = sym (append-nil acc)
set_headers-AreDistinct ((f, v) ∷ hs) acc d =
    ap (set_headers hs) (set_header-last f v acc hs d)
    ∙ set_headers-AreDistinct hs (acc ++ (f, v) ∷ []) (rw (append_assoc acc ((f, v) ∷ []) hs) d)
    ∙ append_assoc acc ((f, v) ∷ []) hs
