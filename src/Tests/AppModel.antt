-- ===== src/Tests/AppModel.antt =====
-- The tenant, the detector and the moments of the tests of App: the detector finds two numbers in one text.
use seif_pii.Base.{Bool, true, false, none, some, [], ◌∷◌, if◌then◌else◌}
use seif_pii.Text.{codes, text_eq}
use seif_pii.App.Policies.{Policy, Settings}
use seif_pii.App.Records.{process_text, Record, Context, Outside, Moment}
use seif_pii.Tests.TransformTests.{note, two_pins}

abbrev pub demo_policy : Bool → Policy
demo_policy allow_unmask = record {
  enabled = true;
  api_key = "k";
  types = [];
  mode = "mask";
  allow_unmask = allow_unmask;
  min_types = 1;
  required_types = "PIN" ∷ [];
  allowed_modes = "mask" ∷ "token" ∷ [];
  extra_rules = [];
  rps = 2;
  masking_enabled = true;
}

abbrev pub settings : Settings
settings = record {
  demo = false;
  limits = record { ttl = 900; max_records = 4; max_store_bytes = 64 };
  max_payload_chars = 100;
  cpu_workers = 4;
  policies = ("a", demo_policy true) ∷ [];
}

-- The digest tells the note from all other texts.
abbrev pub outside : Outside
outside = record {
  digest = λ t. if text_eq t (codes "PIN 2050, PIN 2050") then "note" else "other";
  key_of = λ tenant id. tenant;
  rules = λ policy t. some two_pins;
  ner = none;
  merge = λ t spans more_spans. some spans;
}

abbrev pub first_moment : Moment
first_moment = record { read_at = 7; now = 8; later = 9; nonce = 0; draws = []; large_inflight = 0 }

abbrev pub second_moment : Moment
second_moment = record first_moment { read_at = 50; now = 51; later = 52 }

abbrev pub context : Bool → Context
context allow_unmask = record {
  payload = note;
  policy = demo_policy allow_unmask;
  operation = process_text;
  mode = "mask";
  key = "a";
  fingerprint = "note";
}

abbrev pub masked_note : Record
masked_note = record {
  original_hash = "note";
  masked_hash = "other";
  masked = codes "PIN ****, PIN ****";
  replacements =
      record { start = 4; end = 8; original = codes "2050"; replacement = codes "****" }
      ∷ record { start = 14; end = 18; original = codes "2050"; replacement = codes "****" }
      ∷ [];
  entities = two_pins;
  mode = "mask";
  detected_types = "PIN" ∷ [];
  masking_enabled = true;
  detector_profile = "rules";
}
