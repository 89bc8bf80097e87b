-- ===== src/Tests/Services.antt =====
-- The client, the actor, the store, the HTTP cap, the panel and the fonts at concrete inputs.
use mathlib.Core.List.{append_assoc, append-nil}
use sni_lua.Actor.Slot.{IsPublished, run-IsPublished}
use sni_lua.Actor.{Actor, Answers, Cmd, connected, connect, disconnect, select_device, start, run}
use sni_lua.Client.{DeviceInfo, empty_response, ok, err, fx_pak_pro, lo_rom}
use sni_lua.Common.{
  ℕ, ◌≡◌, refl, ap, ◌∙◌, List, [], ◌∷◌, ◌++◌, map, suc, zero, Option, none, some, true, Str, str,
}
use sni_lua.Controls.{Controls, header, checkbox}
use sni_lua.Runtime.Http
use sni_lua.Runtime.Http.Bound.{IsBounded, Reachable-IsBounded}
use sni_lua.Runtime.Http.{HttpRequest, HttpBridge, Reachable}
use sni_lua.Runtime.Store.Saved.{Op, sets, flushes, step, run as run_store, flush-bind}
use sni_lua.Runtime.Store.{Doc, Parsed, object, new, bind}

abbrev console : DeviceInfo
console = record {
  uri = str "fxpakpro://a";
  display_name = str "a";
  kind = str "fxpakpro";
  capabilities = [];
  default_space = fx_pak_pro;
}

-- clients are told apart by a number
abbrev answers : Answers ℕ
answers = record {
  connected = ok 1;
  listed = ok (console ∷ []);
  detected = ok lo_rom;
  read = err empty_response;
  rtt_ms = 3;
}

abbrev commands : List (Cmd × Answers ℕ)
commands =
    (connect (str "http://127.0.0.1:8191"), answers)
    ∷ (select_device (str "b"), answers)
    ∷ (disconnect, answers)
    ∷ (connect (str "x"), answers)
    ∷ []

run-IsPublished_example : IsPublished (run commands start)
run-IsPublished_example = run-IsPublished commands

abbrev lost : Actor ℕ
lost = record {
  state = record {
    conn = connected;
    devices = [];
    selected_uri = some (str "gone");
    mapping = none;
    last_probe = record { region = none; bytes = []; error = none; rtt_ms = 0 };
  };
  client = some 1;
  slot = some (1, str "gone");
  written = [];
}

-- A printer of documents of numbers: each value, then its key's characters plus one, then 0.
print : Doc ℕ → Str
print [] = []
print ((k, v) ∷ doc) = v ∷ map suc k ++ 0 ∷ print doc

mutual
  read_entries : Str → Doc ℕ
  read_entries [] = []
  read_entries (v ∷ s) = read_key v [] s

  read_key : ℕ → Str → Str → Doc ℕ
  read_key v k [] = []
  read_key v k (zero ∷ s) = (k, v) ∷ read_entries s
  read_key v k (suc c ∷ s) = read_key v (k ++ c ∷ []) s

read_key-print :
    (v : ℕ) (k l s : Str) → read_key v k (map suc l ++ 0 ∷ s) ≡ (k ++ l, v) ∷ read_entries s
unfolding read_key
read_key-print v k [] s = rw append-nil refl
read_key-print v k (c ∷ l) s =
    read_key-print v (k ++ c ∷ []) l s
    ∙ ap (λ x. (x, v) ∷ read_entries s) (append_assoc k (c ∷ []) l)

read-print : (doc : Doc ℕ) → read_entries (print doc) ≡ doc
unfolding read_entries print
read-print [] = refl
read-print ((k, v) ∷ doc) =
    read_key-print v [] k (print doc) ∙ ap (λ d. (k, v) ∷ d) (read-print doc)

abbrev writes : List (Op ℕ)
writes = sets (str "hp") 4 ∷ flushes ∷ sets (str "hp") 5 ∷ []

flush-bind_example :
    let parse : Str → Parsed ℕ = λ s. object (read_entries s) in
    let print_doc : Doc ℕ → Option Str = λ doc. some (print doc) in
    let last = run_store parse print_doc (bind parse none (str "f") new, none) writes in
    let d = step parse print_doc last flushes in (bind parse d.1 (str "f") new).doc ≡ last.0.doc
flush-bind_example =
    let parse : Str → Parsed ℕ = λ s. object (read_entries s) in
    let print_doc : Doc ℕ → Option Str = λ doc. some (print doc) in
    let last = run_store parse print_doc (bind parse none (str "f") new, none) writes in
    flush-bind parse print_doc none (str "f") (print last.0.doc) writes refl
      (ap object (read-print last.0.doc))

abbrev request : HttpRequest
request = record {
  method = str "GET";
  url = str "u";
  headers = [];
  body = none;
  timeout_ms = 10;
  id = 0;
}

one_sent : Reachable (Http.enqueue true request (Http.reserve request Http.new))
unfolding Http.new Http.reserve
one_sent =
    Http.steps (Http.steps Http.starts (Http.reserves request refl))
      (Http.enqueues true request refl)

Reachable-IsBounded_example : IsBounded (Http.enqueue true request (Http.reserve request Http.new))
Reachable-IsBounded_example = Reachable-IsBounded one_sent

abbrev panel : Controls ℕ
panel = record { items = header (str "HUD") ∷ checkbox (str "grid") (str "Grid") true ∷ [] }
