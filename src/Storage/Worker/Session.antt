-- ===== src/Storage/Worker/Session.antt =====
-- Whole commands and sessions of the key-value server (src/storage/SkipListWorker.cpp and
-- example/kv_server.cpp) against the service.
use my_network_library.Prelude.{
  ◌⊎◌, inl, inr, ◌+◌, ◌≤◌, ◌≡◌, refl, ap, ◌∙◌, false, Option, none, some, List, [], ◌∷◌, ◌++◌,
  arith, length, length-append,
}
use my_network_library.Prelude.Monad.{◌>>=◌}
use my_network_library.Prelude.Text.{Text, codes, text_eq_refl}
use my_network_library.Storage.Table.Laws.{lookup-put}
use my_network_library.Storage.SkipList.View.{table}
use my_network_library.Storage.DumpFile.{is_empty}
use my_network_library.Storage.Worker.{
  cmd_list, Env, Worker, ParseState, set, get, words, upper, cmd_map, parse_command, deal_with_cmd,
  text_order, line,
}
use my_network_library.Storage.Worker.Words.{
  AreWords, unwords, non_spaces, concat, words-non_spaces, words-unwords,
}
use my_network_library.Storage.Worker.Names.{named, cmd_map-upper}
use my_network_library.Storage.Service.{Service, serve}
use my_network_library.Storage.Worker.Refine.{Cells, view, IsSound, Outcome, handle-serve}

-- what the server's message callback does with one command after the other: the replies
unfoldable pub session : Env → Worker → List Text → Option (List Text × Worker)
session e w [] = some ([], w)
session e w (cmd ∷ cmds) = do
  (reply, w₁) ← deal_with_cmd e w cmd
  (replies, w₂) ← session e w₁ cmds
  some (reply ∷ replies, w₂)

-- the service, command after command
unfoldable pub serve_all : List Text → Service → Option (List Text × Service)
serve_all [] s = some ([], s)
serve_all (cmd ∷ cmds) s = do
  (st, ws) ← parse_command cmd
  (replies, s₂) ← serve_all cmds (serve st ws s).1
  some ((serve st ws s).0 ∷ replies, s₂)

-- every command has a byte that is no space
abbrev pub AllNonBlank : List Text → Type 0
AllNonBlank [] = Unit
AllNonBlank (cmd ∷ cmds) = (is_empty (non_spaces cmd) ≡ false) × AllNonBlank cmds

parse_command-blank :
    (cmd : Text) → non_spaces cmd ≡ [] → (cmd_list cmd ≡ some []) × (parse_command cmd ≡ none)
unfolding parse_command
parse_command-blank cmd h =
    let (ws, ran, a, c) = words-non_spaces (length cmd + 1) cmd (omega arith) in
    let e = no_words ws a (c ∙ h) in (ran ∙ ap some e, rw (ran, e) refl)
  where
    no_words : (ws : List Text) → AreWords ws → concat ws ≡ [] → ws ≡ []
    no_words [] a c = refl
    no_words ([] ∷ ws) a c = cc
    no_words ((x ∷ w) ∷ ws) a c = unfold concat in cc

-- any other command is split into its words
parse_command-some :
    (cmd : Text)
    → is_empty (non_spaces cmd) ≡ false
    → (st : ParseState) × (ws : List Text) × (parse_command cmd ≡ some (st, ws))
unfolding parse_command
parse_command-some cmd h =
    let (ws, ran, a, c) = words-non_spaces (length cmd + 1) cmd (omega arith) in go ws ran c
  where
    go :
        (ws : List Text)
        → words (length cmd + 1) cmd ≡ some ws
        → concat ws ≡ non_spaces cmd
        → (st : ParseState) × (vs : List Text) × (parse_command cmd ≡ some (st, vs))
    go [] ran c =
        let none_left : concat [] ≡ [] = unfold concat in refl in
        cc (ap is_empty c, ap is_empty none_left)
    go (w ∷ ws) ran c = (cmd_map (upper w), w ∷ ws, rw ran)

-- From any sound state a command that is split into words ends without a fault, with the reply
-- and in the state of the service.
pub deal_with_cmd-serve :
    (e : Env) (w : Worker) (cells : Cells) (cmd : Text) (st : ParseState) (ws : List Text)
    → IsSound w cells
    → parse_command cmd ≡ some (st, ws)
    → Outcome (deal_with_cmd e w cmd) (serve st ws (view w cells))
unfolding deal_with_cmd
deal_with_cmd-serve e w cells cmd st ws r p =
    let d = handle-serve e w cells st ws r in
    record { next = d.next; cells = d.cells; ran = rw p d.ran; sound = d.sound; state = d.state }

abbrev IsEmpty : Text → Type 0
IsEmpty t = t ≡ []

is_empty-cases : (t : Text) → IsEmpty t ⊎ (is_empty t ≡ false)
is_empty-cases [] = inl refl
is_empty-cases (x ∷ t) = inr refl

-- From any sound state, a command of spaces alone is split into no words at all, so that
-- `parseCommand` faults on the front of an empty vector; every other command ends without a fault.
pub deal_with_cmd-blank :
    (e : Env) (w : Worker) (cells : Cells) (cmd : Text)
    → IsSound w cells
    → ((non_spaces cmd ≡ []) × (cmd_list cmd ≡ some []) × (deal_with_cmd e w cmd ≡ none))
      ⊎ ((is_empty (non_spaces cmd) ≡ false)
          × (reply : Text) × (w' : Worker) × (deal_with_cmd e w cmd ≡ some (reply, w')))
unfolding deal_with_cmd
deal_with_cmd-blank e w cells cmd r = elim (is_empty-cases (non_spaces cmd)) [
  | inl h ↦ let (split, p) = parse_command-blank cmd h in inl (h, split, rw p refl)
  | inr h ↦
      let (st, ws, p) = parse_command-some cmd h in
      let d = deal_with_cmd-serve e w cells cmd st ws r p in
      inr (h, (serve st ws (view w cells)).0, d.next, d.ran)
]

pub record Served (e : Env) (w : Worker) (cells : Cells) (cmds : List Text) : Type 0 where
  pub replies : List Text
  pub next : Worker
  pub cells' : Cells
  pub ran : session e w cmds ≡ some (replies, next)
  pub sound : IsSound next cells'
  pub spec : serve_all cmds (view w cells) ≡ some (replies, view next cells')

-- From any sound state, a session of commands none of which is blank ends without a fault, and its
-- replies and its final state are those of the service.
pub session-serve_all :
    (e : Env) (w : Worker) (cells : Cells) (cmds : List Text)
    → IsSound w cells
    → AllNonBlank cmds
    → Served e w cells cmds
unfolding session serve_all
session-serve_all e w cells [] r h = record {
  replies = [];
  next = w;
  cells' = cells;
  ran = refl;
  sound = r;
  spec = refl;
}
session-serve_all e w cells (cmd ∷ cmds) r h =
    let (st, ws, p) = parse_command-some cmd h.0 in
    let d = deal_with_cmd-serve e w cells cmd st ws r p in
    let s = session-serve_all e d.next d.cells cmds d.sound h.1 in
    record {
      replies = (serve st ws (view w cells)).0 ∷ s.replies;
      next = s.next;
      cells' = s.cells';
      ran = rw (d.ran, s.ran);
      sound = s.sound;
      spec = rw (p, ← d.state, s.spec);
    }

length-unwords : (ws : List Text) → length ws ≤ length (unwords ws)
unfolding unwords
length-unwords [] = omega arith
length-unwords (w ∷ ws) = omega (arith, length-unwords ws, length-append w (b' ' ∷ unwords ws))

parse_command-words :
    (name : Text) (ws : List Text)
    → AreWords (name ∷ ws)
    → parse_command (unwords (name ∷ ws)) ≡ some (cmd_map (upper name), name ∷ ws)
unfolding parse_command
parse_command-words name ws a = rw (
    words-unwords (length (unwords (name ∷ ws)) + 1) (name ∷ ws) a
      (omega (arith, length-unwords (name ∷ ws))))

-- A command that is printed word by word is parsed into these words. Its first word selects the handler
-- of SET, GET, DEL, LOAD or DUMP exactly when it is that name with each letter capital or small, and
-- the handler of errors otherwise.
pub parse_command-unwords :
    (name : Text) (ws : List Text)
    → AreWords (name ∷ ws)
    → parse_command (unwords (name ∷ ws)) ≡ some (named name, name ∷ ws)
parse_command-unwords name ws a =
    parse_command-words name ws a ∙ ap (λ st. some (st, name ∷ ws)) (cmd_map-upper name)

-- After a SET of a key the next GET of the key, whatever the state, replies with the value, for any
-- key and value that are words and any spelling of the two names.
pub get-set :
    (e : Env) (w : Worker) (cells : Cells) (set_name get_name key value : Text)
    → IsSound w cells
    → AreWords (set_name ∷ key ∷ value ∷ [])
    → AreWords (get_name ∷ key ∷ [])
    → cmd_map (upper set_name) ≡ set
    → cmd_map (upper get_name) ≡ get
    → (w' : Worker) × (reply : Text) × (session e w
          (unwords (set_name ∷ key ∷ value ∷ []) ∷ unwords (get_name ∷ key ∷ []) ∷ [])
        ≡ some (reply ∷ (codes "ok : " ++ line value) ∷ [], w'))
unfolding session
get-set e w cells sn gn key value r asn ag ms mg =
    let p =
      parse_command-words sn (key ∷ value ∷ []) asn
      ∙ ap (λ st. some (st, sn ∷ key ∷ value ∷ [])) ms in
    let d =
      deal_with_cmd-serve e w cells (unwords (sn ∷ key ∷ value ∷ [])) set (sn ∷ key ∷ value ∷ []) r
        p in
    let q = parse_command-words gn (key ∷ []) ag ∙ ap (λ st. some (st, gn ∷ key ∷ [])) mg in
    let f =
      deal_with_cmd-serve e d.next d.cells (unwords (gn ∷ key ∷ [])) get (gn ∷ key ∷ []) d.sound
        q in
    (f.next, (serve set (sn ∷ key ∷ value ∷ []) (view w cells)).0, rw (d.ran, f.ran) (got d.state))
  where
    got :
        {s : Service} {x : Text} {w' : Worker}
        → s ≡ (serve set (sn ∷ key ∷ value ∷ []) (view w cells)).1
        → ◌≡◌ {A = Option (List Text × Worker)}
            (some (x ∷ (serve get (gn ∷ key ∷ []) s).0 ∷ [], w'))
            (some (x ∷ (codes "ok : " ++ line value) ∷ [], w'))
    got e =
        rw e
          (unfold serve in rw (lookup-put text_order key key value (table cells), text_eq_refl key))
