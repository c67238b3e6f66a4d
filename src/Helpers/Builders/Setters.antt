-- ===== src/Helpers/Builders/Setters.antt =====
-- `TelemetryFrameBuilder` against its specification: a field is what was set last, or the default.
use sovereign_edge_tee_agent.Base.{
  ℕ, Bytes, text, ◌≡◌, refl, ap, ◌∙◌, arith, List, [], ◌∷◌, Option, none, some,
}
use sovereign_edge_tee_agent.Base.Fallible.{ok}
use sovereign_edge_tee_agent.Base.Options.{or_else}
use sovereign_edge_tee_agent.Common.{FrameMetadata, default_metadata, TelemetryFrame}
use sovereign_edge_tee_agent.Helpers.Builders.{
  unwrap_or, TelemetryFrameBuilder, new_frame, with_frame_id, with_source_ip, with_dest_ip,
  with_timestamp_ns, with_payload, with_payload_str, with_metadata, build_frame,
}

-- One call of a setter.
pub data Setter (F : Type 0) : Type 0 where
  sets_id sets_timestamp : ℕ → Setter F
  sets_source sets_dest sets_payload sets_payload_str : Bytes → Setter F
  sets_metadata : FrameMetadata F → Setter F

module _ {F : Type 0} where
  unfoldable pub apply : TelemetryFrameBuilder F → Setter F → TelemetryFrameBuilder F
  apply b (sets_id id) = with_frame_id b id
  apply b (sets_timestamp ts) = with_timestamp_ns b ts
  apply b (sets_source ip) = with_source_ip b ip
  apply b (sets_dest ip) = with_dest_ip b ip
  apply b (sets_payload bytes) = with_payload b bytes
  apply b (sets_payload_str str) = with_payload_str b str
  apply b (sets_metadata meta) = with_metadata b meta

  unfoldable pub apply_all : TelemetryFrameBuilder F → List (Setter F) → TelemetryFrameBuilder F
  apply_all b [] = b
  apply_all b (s ∷ ss) = apply_all (apply b s) ss

  -- What a setter assigns to each field.
  abbrev pub id_of : Setter F → Option ℕ
  id_of (sets_id id) = some id
  id_of _ = none

  abbrev pub timestamp_of : Setter F → Option ℕ
  timestamp_of (sets_timestamp ts) = some ts
  timestamp_of _ = none

  abbrev pub source_of : Setter F → Option Bytes
  source_of (sets_source ip) = some ip
  source_of _ = none

  abbrev pub dest_of : Setter F → Option Bytes
  dest_of (sets_dest ip) = some ip
  dest_of _ = none

  abbrev pub payload_of : Setter F → Option Bytes
  payload_of (sets_payload bytes) = some bytes
  payload_of (sets_payload_str str) = some str
  payload_of _ = none

  abbrev pub metadata_of : Setter F → Option (FrameMetadata F)
  metadata_of (sets_metadata meta) = some meta
  metadata_of _ = none

-- The last value that a field is set to.
unfoldable pub last_set : {S A : Type 0} → (S → Option A) → List S → Option A
last_set field [] = none
last_set field (s ∷ ss) = or_else (last_set field ss) (field s)

or_else_assoc : {A : Type 0} (x y z : Option A) → or_else x (or_else y z) ≡ or_else (or_else x y) z
or_else_assoc (some a) y z = refl
or_else_assoc none y z = refl

or_else-none : {A : Type 0} (x : Option A) → or_else x none ≡ x
or_else-none (some a) = refl
or_else-none none = refl

module _ {F A : Type 0} where
  -- A field that every setter leaves or overwrites holds what was set last, or what it held before.
  field_lem :
      (field : TelemetryFrameBuilder F → Option A) (value : Setter F → Option A)
      → ((b : TelemetryFrameBuilder F) (s : Setter F)
          → field (apply b s) ≡ or_else (value s) (field b))
      → (b : TelemetryFrameBuilder F) (ss : List (Setter F))
      → field (apply_all b ss) ≡ or_else (last_set value ss) (field b)
  unfolding apply_all last_set
  field_lem field value h b [] = refl
  field_lem field value h b (s ∷ ss) =
      field_lem field value h (apply b s) ss
      ∙ ap (or_else (last_set value ss)) (h b s)
      ∙ or_else_assoc (last_set value ss) (value s) (field b)

  from_new :
      (field : TelemetryFrameBuilder F → Option A) (value : Setter F → Option A)
      → ((b : TelemetryFrameBuilder F) (s : Setter F)
          → field (apply b s) ≡ or_else (value s) (field b))
      → field new_frame ≡ none
      → (ss : List (Setter F)) → field (apply_all new_frame ss) ≡ last_set value ss
  from_new field value h fresh ss =
      field_lem field value h new_frame ss
      ∙ ap (or_else (last_set value ss)) fresh
      ∙ or_else-none (last_set value ss)

module _ {F : Type 0} where
  -- The frame that the specification promises after the setters.
  abbrev pub promised : List (Setter F) → TelemetryFrame F
  promised ss = record {
    frame_id = unwrap_or 0 (last_set id_of ss);
    source_ip = unwrap_or (text "0.0.0.0") (last_set source_of ss);
    dest_ip = last_set dest_of ss;
    timestamp_ns = unwrap_or 0 (last_set timestamp_of ss);
    payload = unwrap_or (text "") (last_set payload_of ss);
    metadata = unwrap_or default_metadata (last_set metadata_of ss);
  }

  -- Whatever setters are called on a fresh builder, in any order and any number of times, `build` succeeds, and each
  -- field of its frame is the value that was set last, or the default when none was.
  pub build-apply_all :
      (ss : List (Setter F)) → build_frame (apply_all new_frame ss) ≡ ok (promised ss)
  unfolding build_frame apply
  build-apply_all ss =
      let id = from_new (λ b. b.frame_id) id_of (λ b s. ground arith) refl ss in
      let source = from_new (λ b. b.source_ip) source_of (λ b s. ground arith) refl ss in
      let dest = from_new (λ b. b.dest_ip) dest_of (λ b s. ground arith) refl ss in
      let ts = from_new (λ b. b.timestamp_ns) timestamp_of (λ b s. ground arith) refl ss in
      let payload = from_new (λ b. b.payload) payload_of (λ b s. ground arith) refl ss in
      let meta = from_new (λ b. b.metadata) metadata_of (λ b s. ground arith) refl ss in
      rw (id, source, dest, ts, payload, meta)
