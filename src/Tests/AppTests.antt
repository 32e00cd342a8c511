-- ===== src/Tests/AppTests.antt =====
-- Instances of the theorems on seif/app.py, with a detector that finds two numbers in one text.
use seif_pii.Base.{
  ℕ, Pairs, ◌≢◌, ◌+◌, ◌*◌, ◌≤◌, ◌-◌, String, ◌≡◌, refl, subst, eq_iff, true, false, none, some,
  List, [], ◌∷◌, arith, In, inl, length, ◌||◌, null, str_eq,
}
use seif_pii.Base.Result.{ok, raise}
use seif_pii.Text.{Text, codes, ascii, text_eq}
use seif_pii.Span.{Span, one, InOrder}
use seif_pii.Transform.Values.{shape_mask}
use seif_pii.Transform.Masking.{mask_text, replace}
use seif_pii.Vault.{opened, empty, get, put_if_absent, find, found, commit, expire, expire_from}
use seif_pii.Vault.Validity.{empty-IsValid}
use seif_pii.Vault.View.{view}
use seif_pii.App.Policies.{
  refused, Policy, select_spans, type_set, add_type, member, spend, authorize, admit_rate,
}
use seif_pii.App.Limiter.{Arrival, admitted, admitted-bound}
use seif_pii.App.Records.{
  process_text, Direction, masking, Record, find_spans, new_record, accept, store_record,
  detect_and_transform, resolve_record, answer,
}
use seif_pii.App.Execution.{Request, State, execute, context_of, response_of}
use seif_pii.App.Reuse.{with_payload}
use seif_pii.App.Race.{resolve_record-race}
use seif_pii.App.RoundTrip.{process-process, process_again}
use seif_pii.App.Safety.{IsAdmitted, execute-IsAdmitted, answer_without_unmask}
use seif_pii.App.Selection.{select_spans-policy}
use seif_pii.App.Boundary.{
  Bounds, Middleware, new_body, enter, receive, part, enters, receives, idle, Reachable, starts,
  steps,
}
use seif_pii.App.Boundary.Accounting.{IsAccounted, Reachable-IsAccounted}
use seif_pii.Detector.Order.{compare_text, compare_ℕ}
use seif_pii.Tests.VaultTests.{toy}
use seif_pii.Tests.TransformTests.{note, two_pins}
use seif_pii.Tests.AppModel.{
  demo_policy, settings, outside, first_moment, second_moment, context, masked_note,
}

first_answer :
    (answer ascii (toy Record) outside settings (context true) first_moment (empty (toy Record))).0
    ≡ ok (masking, codes "PIN ****, PIN ****", masked_note)
unfolding answer resolve_record detect_and_transform find_spans new_record store_record accept get
    put_if_absent commit find expire expire_from found mask_text replace shape_mask select_spans
    type_set add_type compare_text compare_ℕ text_eq
first_answer = refl

spans-InOrder :
    (spans : List Span)
    → find_spans ascii (toy Record) outside settings 0 (context true) ≡ ok spans
    → InOrder 0 (length note) spans
unfolding find_spans
spans-InOrder spans h =
    let same : two_pins ≡ spans = ground arith in
    subst (λ x. InOrder 0 (length note) x) same (omega arith)

other_note : (x y : String) → (str_eq x y ≡ false) → x ≡ y → ⊥
other_note x y h k = let e : str_eq x y ≡ true = (eq_iff x y).1 k in ground arith

process-process_example :
    (d : Direction) × (r : Record) × ((answer ascii
        (toy Record)
        outside
        settings
        (with_payload ascii
          (toy Record)
          outside
          settings
          (context true)
          (codes "PIN ****, PIN ****"))
        second_moment
        (answer ascii
          (toy Record)
          outside
          settings
          (context true)
          first_moment
          (empty (toy Record))).1).0
      ≡ ok (d, note, r))
unfolding text_eq view find
process-process_example =
    process-process ascii (toy Record) outside settings 7 (context true) first_moment second_moment
      (empty (toy Record)) (masking, codes "PIN ****, PIN ****", masked_note)
      (empty-IsValid (toy Record) (record { ttl = 900; max_records = 4; max_store_bytes = 64 }) 7)
      (omega arith, omega arith, omega arith) refl refl first_answer (omega arith) (omega arith)
      refl spans-InOrder refl (λ h. absurd (other_note "other" "note" refl h))

process_again_example :
    (answer ascii
      (toy Record)
      outside
      settings
      (context true)
      second_moment
      (answer ascii
        (toy Record)
        outside
        settings
        (context true)
        first_moment
        (empty (toy Record))).1).0
    ≡ ok (masking, codes "PIN ****, PIN ****", masked_note)
unfolding view find
process_again_example =
    process_again ascii (toy Record) outside settings 7 (context true) first_moment second_moment
      (empty (toy Record)) (masking, codes "PIN ****, PIN ****", masked_note)
      (empty-IsValid (toy Record) (record { ttl = 900; max_records = 4; max_store_bytes = 64 }) 7)
      (omega arith, omega arith, omega arith) refl refl first_answer (omega arith) (omega arith)

answer_without_unmask_example :
    ((answer ascii
          (toy Record)
          outside
          settings
          (context false)
          first_moment
          (empty (toy Record))).0
        ≡ ok (masking, codes "PIN ****, PIN ****", record masked_note { replacements = [] })
      → masking ≡ masking)
    × (new_record ascii (toy Record) outside settings (context false) two_pins []
          ≡ ok (record masked_note { replacements = [] })
        → (record masked_note { replacements = [] }).replacements ≡ [])
answer_without_unmask_example =
    answer_without_unmask ascii (toy Record) outside settings 10 (context false) first_moment
      (empty (toy Record)) masking (codes "PIN ****, PIN ****")
      (record masked_note { replacements = [] }) two_pins refl

abbrev request : Request
request = record {
  system_id = some "a";
  api_key = "k";
  payload = note;
  payload_id = codes "1";
  mode = none;
}

abbrev start_state : State ascii (toy Record) outside settings 10
start_state = record { vault = empty (toy Record); rates = [] }

executed :
    (execute ascii
      (toy Record)
      outside
      settings
      10
      process_text
      request
      5
      first_moment
      start_state).0
    ≡ ok (record { result = codes "PIN ****, PIN ****"; details = none })
unfolding execute context_of response_of authorize admit_rate spend answer resolve_record
    detect_and_transform find_spans new_record store_record accept get put_if_absent commit find
    expire expire_from found mask_text replace shape_mask select_spans type_set add_type
    compare_text compare_ℕ text_eq
executed = refl

execute-IsAdmitted_example :
    (policy : Policy) × IsAdmitted ascii (toy Record) outside settings 10 request policy
execute-IsAdmitted_example =
    execute-IsAdmitted ascii (toy Record) outside settings 10 process_text request 5 first_moment
      start_state (record { result = codes "PIN ****, PIN ****"; details = none }) executed

-- A request without the key is turned away.
no_key_test :
    (execute ascii
      (toy Record)
      outside
      settings
      10
      process_text
      (record request { api_key = "" })
      5
      first_moment
      start_state).0
    ≡ raise (refused 401 "unauthorized")
unfolding execute authorize
no_key_test = refl

select_spans-policy_example :
    In (record { start = 4; end = 8; type = "PIN"; confidence = one; reason = "context" }) two_pins
    × ((null (demo_policy true).types || member "PIN" (demo_policy true).types) ≡ true)
    × ((demo_policy true).masking_enabled ≡ true)
    × (1 ≤ length (select_spans two_pins (demo_policy true)).1)
    × Pairs (λ x y. x ≢ y) (select_spans two_pins (demo_policy true)).1
    × ((t : String)
        → In t (select_spans two_pins (demo_policy true)).1
        → (s' : Span) × In s' (select_spans two_pins (demo_policy true)).0 × (s'.type ≡ t))
    × ((t : String)
        → member t ("PIN" ∷ []) ≡ true
        → (s' : Span) × In s' (select_spans two_pins (demo_policy true)).0 × (s'.type ≡ t))
unfolding select_spans type_set add_type compare_text compare_ℕ
select_spans-policy_example =
    select_spans-policy two_pins (demo_policy true)
      (record { start = 4; end = 8; type = "PIN"; confidence = one; reason = "context" }) (inl refl)

-- The requests of the tenant "a" at these times, with its key, and one with another key between them.
abbrev arrival : String → ℕ → Arrival
arrival key time = record { system_id = some "a"; api_key = key; at = time }

abbrev arrivals : List Arrival
arrivals =
    arrival "k" 5 ∷ arrival "k" 6 ∷ arrival "stranger" 6 ∷ arrival "k" 7 ∷ arrival "k" 25 ∷ []

admitted-bound_example : admitted 10 settings "a" [] arrivals * 10 ≤ 2 * 10 + (25 - 5) * 2
admitted-bound_example =
    admitted-bound 10 settings "a" (demo_policy true) refl 5 arrivals (omega arith)

-- The third of three quick requests is held, the fourth is not.
admitted_test : admitted 10 settings "a" [] arrivals ≡ 3
unfolding admitted authorize admit_rate spend
admitted_test = refl

abbrev bounds : Bounds
bounds = record { max_body_bytes = 8; max_inflight_body_bytes = 12; max_inflight = 2 }

abbrev two_entered : Middleware
two_entered = record {
  inflight = 2;
  buffered_bytes = 0;
  active = new_body bounds false ∷ new_body bounds false ∷ [];
}

two_entered-Reachable : Reachable bounds two_entered
unfolding enter
two_entered-Reachable =
    steps _ _ (steps _ _ starts (enters (idle bounds)))
      (enters (record { inflight = 1; buffered_bytes = 0; active = new_body bounds false ∷ [] }))

Reachable-IsAccounted_example :
    IsAccounted bounds
      (receive bounds 1 (part (1 ∷ 2 ∷ 3 ∷ []) false) (new_body bounds false) two_entered)
Reachable-IsAccounted_example =
    Reachable-IsAccounted bounds
      (receive bounds 1 (part (1 ∷ 2 ∷ 3 ∷ []) false) (new_body bounds false) two_entered)
      (steps two_entered _ two_entered-Reachable (
        receives 1 (part (1 ∷ 2 ∷ 3 ∷ []) false) (new_body bounds false) two_entered refl refl
          refl))

raced :
    (resolve_record ascii
      (toy Record)
      outside
      settings
      (context true)
      second_moment
      none
      (answer ascii
        (toy Record)
        outside
        settings
        (context true)
        first_moment
        (empty (toy Record))).1).0
    ≡ ok (masking, codes "PIN ****, PIN ****", masked_note)
unfolding answer resolve_record detect_and_transform find_spans new_record store_record accept get
    put_if_absent commit find opened expire expire_from found mask_text replace shape_mask
    select_spans type_set add_type compare_text compare_ℕ text_eq
raced = refl

abbrev first_result : Direction × Text × Record
first_result = (masking, codes "PIN ****, PIN ****", masked_note)

resolve_record-race_example : first_result ≡ first_result
unfolding view find
resolve_record-race_example =
    resolve_record-race ascii (toy Record) outside settings 7 (context true) (context true)
      first_moment second_moment (empty (toy Record))
      (masking, codes "PIN ****, PIN ****", masked_note)
      (masking, codes "PIN ****, PIN ****", masked_note)
      (empty-IsValid (toy Record) (record { ttl = 900; max_records = 4; max_store_bytes = 64 }) 7)
      (omega arith, omega arith, omega arith) refl refl refl first_answer (omega arith)
      (omega arith) raced
