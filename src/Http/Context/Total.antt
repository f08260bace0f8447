-- ===== src/Http/Context/Total.antt =====
-- `parseRequest` of src/http/HttpContext.cpp ends, and what it accepts has a method and a version.
use mathlib.Core.Path.{subst}
use mathlib.Core.Option.{some-injective}
use my_network_library.Prelude.{
  ℕ, zero, suc, ◌+◌, ◌<◌, ◌≡◌, refl, ap, sym, ◌∙◌, ◌⊎◌, Bool, true, false, Option, none, some,
  if◌then◌else◌, length, take, arith, length-drop, Bool-cases, inl, inr,
}
use my_network_library.Prelude.Text.{Text, has_byte, before}
use my_network_library.Http.Request.{Version, unknown, HttpRequest, is_valid, method_of, add_header}
use my_network_library.Http.ParseWorker.{ParseWorker, unread, find_crlf, retrieve_until}
use my_network_library.Http.ParseWorker.Bounds.{IsReady, search_crlf-bound, retrieve_until-unread}
use my_network_library.Http.Context.{
  HttpContext, construct, is_got_all, is_request_line, process_request_line, line_result,
  parse_target, parse_version, set_target, behind, Round, line_round, header_round, round,
  parse_loop, parse_request,
}

pub round-line :
    (ok : Bool) (c : HttpContext) (w : ParseWorker)
    → is_request_line c.state ≡ true
    → round ok c w ≡ line_round ok c w (find_crlf w)
unfolding round
round-line ok c w t =
    ap (λ b. if b then line_round ok c w (find_crlf w) else header_round ok c w (find_crlf w)) t

pub round-header :
    (ok : Bool) (c : HttpContext) (w : ParseWorker)
    → is_request_line c.state ≡ false
    → round ok c w ≡ header_round ok c w (find_crlf w)
unfolding round
round-header ok c w t =
    ap (λ b. if b then line_round ok c w (find_crlf w) else header_round ok c w (find_crlf w)) t

pub parse_loop-more :
    (n : ℕ) (ok : Bool) (c : HttpContext) (w : ParseWorker)
    → (round ok c w).0 ≡ true
    → parse_loop (suc n) ok c w ≡ parse_loop n (round ok c w).1 (round ok c w).2 (round ok c w).3
unfolding parse_loop
parse_loop-more n ok c w t =
    ap
      (λ b.
        if b
        then parse_loop n (round ok c w).1 (round ok c w).2 (round ok c w).3
        else some ((round ok c w).1, (round ok c w).2, (round ok c w).3))
      t

pub parse_loop-done :
    (n : ℕ) (ok : Bool) (c : HttpContext) (w : ParseWorker)
    → (round ok c w).0 ≡ false
    → parse_loop (suc n) ok c w ≡ some ((round ok c w).1, (round ok c w).2, (round ok c w).3)
unfolding parse_loop
parse_loop-done n ok c w t =
    ap
      (λ b.
        if b
        then parse_loop n (round ok c w).1 (round ok c w).2 (round ok c w).3
        else some ((round ok c w).1, (round ok c w).2, (round ok c w).3))
      t

-- what a round that goes on has read
abbrev Shrinks : ParseWorker → Round → Type 0
Shrinks w r = r.0 ≡ true → IsReady r.3 × (length (unread r.3) < length (unread w))

shrinks-retrieve :
    (w : ParseWorker) (k : ℕ)
    → IsReady w
    → find_crlf w ≡ some k
    → IsReady (retrieve_until w (k + 2))
      × (length (unread (retrieve_until w (k + 2))) < length (unread w))
unfolding find_crlf
shrinks-retrieve w k r e =
    let bound = search_crlf-bound (unread w) k e in
    let (ready, left) = retrieve_until-unread w (k + 2) r bound in
    (ready, omega (arith, ap length left, length-drop (k + 2) (unread w), bound))

line_round-Shrinks :
    (ok : Bool) (c : HttpContext) (w : ParseWorker) (found : Option ℕ)
    → IsReady w
    → find_crlf w ≡ found
    → Shrinks w (line_round ok c w found)
unfolding line_round
line_round-Shrinks ok c w none r e = λ h. cc
line_round-Shrinks ok c w (some k) r e = go (process_request_line c.request (take k (unread w)))
  where
    go : (result : Bool × HttpRequest) → Shrinks w (line_result ok c w k result)
    go (true, r') = λ h. shrinks-retrieve w k r e
    go (false, r') = λ h. cc

header_round-Shrinks :
    (ok : Bool) (c : HttpContext) (w : ParseWorker) (found : Option ℕ)
    → IsReady w
    → find_crlf w ≡ found
    → Shrinks w (header_round ok c w found)
unfolding header_round
header_round-Shrinks ok c w none r e = λ h. cc
header_round-Shrinks ok c w (some k) r e = elim (Bool-cases (has_byte b':' (take k (unread w)))) [
  | inl colon ↦ rw colon (λ h. shrinks-retrieve w k r e)
  | inr blank ↦ rw blank (λ h. cc)
]

round-Shrinks :
    (ok : Bool) (c : HttpContext) (w : ParseWorker) → IsReady w → Shrinks w (round ok c w)
round-Shrinks ok c w r = elim (Bool-cases (is_request_line c.state)) [
  | inl t ↦
      subst (Shrinks w) (sym (round-line ok c w t)) (line_round-Shrinks ok c w (find_crlf w) r refl)
  | inr t ↦
      subst (Shrinks w) (sym (round-header ok c w t))
        (header_round-Shrinks ok c w (find_crlf w) r refl)
]

parse_loop-some :
    (n : ℕ) (ok : Bool) (c : HttpContext) (w : ParseWorker)
    → IsReady w
    → length (unread w) < n
    → (out : Bool × HttpContext × ParseWorker) × (parse_loop n ok c w ≡ some out)
parse_loop-some zero ok c w r f = absurd (omega arith)
parse_loop-some (suc n) ok c w r f = elim (Bool-cases (round ok c w).0) [
  | inl more ↦
      let (ready, less) = round-Shrinks ok c w r more in
      let (out, e) =
        parse_loop-some n (round ok c w).1 (round ok c w).2 (round ok c w).3 ready (omega arith) in
      (out, parse_loop-more n ok c w more ∙ e)
  | inr done ↦
      (((round ok c w).1, (round ok c w).2, (round ok c w).3), parse_loop-done n ok c w done)
]

-- With one round more than there are bytes to read, `parseRequest` returns.
pub parse_request-some :
    (c : HttpContext) (w : ParseWorker)
    → IsReady w
    → (out : Bool × HttpContext × ParseWorker) × (parse_request c w ≡ some out)
unfolding parse_request
parse_request-some c w r = parse_loop-some (length (unread w) + 1) false c w r (omega arith)

abbrev pub is_known : Version → Bool
is_known unknown = false
is_known _ = true

abbrev pub IsComplete : HttpRequest → Type 0
IsComplete r = (is_valid r.method ≡ true) × (is_known r.version ≡ true)

parse_version-IsComplete :
    (r : HttpRequest) (v : Text)
    → (parse_version r v).0 ≡ true
    → ((parse_version r v).1.method ≡ r.method) × (is_known (parse_version r v).1.version ≡ true)
unfolding parse_version
parse_version-IsComplete r v h = ground arith

method-set_target : (r : HttpRequest) (t : Text) → (set_target r t).method ≡ r.method
unfolding set_target
method-set_target r t = ground arith

process_request_line-IsComplete :
    (r : HttpRequest) (line : Text)
    → (process_request_line r line).0 ≡ true
    → IsComplete (process_request_line r line).1
unfolding process_request_line parse_target
process_request_line-IsComplete r line h =
    let m = method_of (before b' ' line) in
    let rest = behind b' ' line in
    let r' = set_target (record r { method = m }) (before b' ' rest) in
    ground (
      arith,
      parse_version-IsComplete r' (behind b' ' rest),
      method-set_target (record r { method = m }) (before b' ' rest),
    )

-- an accepted request line comes first
abbrev Accepted : Bool → HttpContext → Type 0
Accepted ok c = (is_request_line c.state ≡ true) ⊎ ((ok ≡ true) × IsComplete c.request)

line_round-Accepted :
    (ok : Bool) (c : HttpContext) (w : ParseWorker) (found : Option ℕ)
    → is_request_line c.state ≡ true
    → Accepted (line_round ok c w found).1 (line_round ok c w found).2
unfolding line_round
line_round-Accepted ok c w none t = inl t
line_round-Accepted ok c w (some k) t =
    go (process_request_line c.request (take k (unread w)))
      (process_request_line-IsComplete c.request (take k (unread w)))
  where
    go :
        (result : Bool × HttpRequest)
        → (result.0 ≡ true → IsComplete result.1)
        → Accepted (line_result ok c w k result).1 (line_result ok c w k result).2
    go (true, r') h = inr (refl, h refl)
    go (false, r') h = inl t

header_round-Accepted :
    (ok : Bool) (c : HttpContext) (w : ParseWorker) (found : Option ℕ)
    → (ok ≡ true) × IsComplete c.request
    → Accepted (header_round ok c w found).1 (header_round ok c w found).2
unfolding header_round add_header
header_round-Accepted ok c w none h = inr h
header_round-Accepted ok c w (some k) h = elim (Bool-cases (has_byte b':' (take k (unread w)))) [
  | inl colon ↦ rw colon (inr h)
  | inr blank ↦ rw blank (inr h)
]

known :
    (ok : Bool) (c : HttpContext)
    → is_request_line c.state ≡ false
    → Accepted ok c
    → (ok ≡ true) × IsComplete c.request
known ok c t (inl e) = cc
known ok c t (inr h) = h

round-Accepted :
    (ok : Bool) (c : HttpContext) (w : ParseWorker)
    → Accepted ok c
    → Accepted (round ok c w).1 (round ok c w).2
round-Accepted ok c w a = elim (Bool-cases (is_request_line c.state)) [
  | inl t ↦ rw (round-line ok c w t) (line_round-Accepted ok c w (find_crlf w) t)
  | inr t ↦ rw (round-header ok c w t) (header_round-Accepted ok c w (find_crlf w) (known ok c t a))
]

parse_loop-Accepted :
    (n : ℕ) (ok : Bool) (c : HttpContext) (w : ParseWorker) (out : Bool × HttpContext × ParseWorker)
    → Accepted ok c
    → parse_loop n ok c w ≡ some out
    → Accepted out.0 out.1
parse_loop-Accepted zero ok c w out a e = unfold parse_loop in cc
parse_loop-Accepted (suc n) ok c w out a e = elim (Bool-cases (round ok c w).0) [
  | inl more ↦
      parse_loop-Accepted n (round ok c w).1 (round ok c w).2 (round ok c w).3 out
        (round-Accepted ok c w a) (sym (parse_loop-more n ok c w more) ∙ e)
  | inr done ↦
      let same : ◌≡◌ {A = Option (Bool × HttpContext × ParseWorker)}
          (some ((round ok c w).1, (round ok c w).2, (round ok c w).3)) (some out) =
        sym (parse_loop-done n ok c w done) ∙ e in
      subst (λ (o : Bool × HttpContext × ParseWorker). Accepted o.0 o.1) (some-injective _ _ same)
        (round-Accepted ok c w a)
]

-- If `parseRequest`, from a new context, ends in the state `GotAll`, it returns `true`, and the
-- request has one of the five methods and one of the two versions.
pub parse_request-IsComplete :
    (w w' : ParseWorker) (ok : Bool) (c : HttpContext)
    → parse_request construct w ≡ some (ok, c, w')
    → is_got_all c ≡ true
    → (ok ≡ true) × IsComplete c.request
unfolding parse_request construct is_got_all
parse_request-IsComplete w w' ok c e g =
    known ok c (ground arith)
      (parse_loop-Accepted (length (unread w) + 1) false construct w (ok, c, w') (inl refl) e)
