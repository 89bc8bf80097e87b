-- ===== src/Runtime/Http.antt =====
-- `HttpBridge`: the cap on requests in flight. `submit` runs on the script's thread in three atomic
-- steps, between which the worker may finish requests; the steps are a relation.
pub mod Bound
use sni_lua.Common.{
  ℕ, suc, ◌+◌, ◌-◌, Bool, true, false, List, [], ◌∷◌, ◌++◌, Option, none, some, if◌then◌else◌, leb,
  ltb, add64, ◌≡◌, Str,
}

pub record HttpRequest : Type 0 where
  pub method : Str
  pub url : Str
  pub headers : List (Str × Str)
  pub body : Option (List ℕ)
  pub timeout_ms : ℕ
  pub id : ℕ

abbrev pub http_max_in_flight : ℕ
http_max_in_flight = 16

-- where `submit` stands: not called, a slot reserved, or refused and about to give the slot back
pub data Phase : Type 0 where
  idle : Phase
  reserved refused : HttpRequest → Phase

pub record HttpBridge : Type 0 where
  pub next_id : ℕ
  pub in_flight : ℕ
  -- the requests sent, which the worker has not finished, in the order of their ids
  pub outstanding : List HttpRequest
  -- the ids that `submit` has returned, latest first
  pub returned : List ℕ
  pub phase : Phase

unfoldable pub new : HttpBridge
new = record { next_id = 1; in_flight = 0; outstanding = []; returned = []; phase = idle }

-- `in_flight.fetch_add(1)` and the test of its result
unfoldable pub reserve : HttpRequest → HttpBridge → HttpBridge
reserve req b = record b {
  in_flight = b.in_flight + 1;
  phase = if leb http_max_in_flight b.in_flight then refused req else reserved req;
}

-- `in_flight.fetch_sub(1)` of a refused request
unfoldable pub back_out : HttpBridge → HttpBridge
back_out b = record b { in_flight = b.in_flight - 1; phase = idle }

-- the id is drawn and the request sent; `alive` is whether the worker still receives
unfoldable pub enqueue : Bool → HttpRequest → HttpBridge → HttpBridge
enqueue alive req b =
    if alive
    then record b {
      next_id = add64 b.next_id 1;
      outstanding = b.outstanding ++ record req { id = b.next_id } ∷ [];
      returned = b.next_id ∷ b.returned;
      phase = idle;
    }
    else record b { next_id = add64 b.next_id 1; in_flight = b.in_flight - 1; phase = idle }

-- the worker's task of one request ends
unfoldable pub finish : List HttpRequest → List HttpRequest → HttpBridge → HttpBridge
finish before after b = record b { in_flight = b.in_flight - 1; outstanding = before ++ after }

pub data Step (b : HttpBridge) : HttpBridge → Type 0 where
  reserves : (req : HttpRequest) → b.phase ≡ idle → Step b (reserve req b)
  backs_out : (req : HttpRequest) → b.phase ≡ refused req → Step b (back_out b)
  enqueues :
      (alive : Bool) (req : HttpRequest) → b.phase ≡ reserved req → Step b (enqueue alive req b)
  finishes :
      (before after : List HttpRequest) (req : HttpRequest)
      → b.outstanding ≡ before ++ req ∷ after
      → Step b (finish before after b)

pub data Reachable : HttpBridge → Type 0 where
  starts : Reachable new
  steps : {b b' : HttpBridge} → Reachable b → Step b b' → Reachable b'
