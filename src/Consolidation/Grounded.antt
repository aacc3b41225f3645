-- ===== src/Consolidation/Grounded.antt =====
-- src-tauri/src/memory_consolidation.rs: what a memory operation that passes the checks holds.
use cozmio.Prelude.{
  String, ◌≡◌, refl, true, false, ◌⊎◌, inl, inr, Option, none, some, List, [], ◌∷◌, arith, contains,
  Bool-cases, All, ◌==◌, string_key, ==_iff, subst,
}
use cozmio.Prelude.Results.{Result, ok, err, ◌>>=◌}
use cozmio.Prelude.Text.{is_empty, is_blank, trim}
use cozmio.Prelude.Numerals.{parse_i64}
use cozmio.Memories.{Done, is_nil, is_some}
use cozmio.Experience.{Problem, clean_optional}
use cozmio.Experience.Facts.{is_blank-empty}
use cozmio.Consolidation.{
  ConsolidationPacket, MemoryOperationInput, Validated, is_creating, creating_layer, agreed_layer,
  body_or_error, required_layer_for_operation, layer_for_operation, required_body, packet_refs,
  known_refs, normalize_source_refs, validate_source_refs_against_packet, numeric_target, targeted,
  cited, producer_or_default, validate_operation_type, validate_memory_operation,
  remove_or_supersede, abstain,
}

-- A text that is there and not blank.
abbrev pub Written : Option String → Type 0
Written none = ⊥
Written (some s) = is_blank s ≡ false

abbrev pub Numeric : Option String → Type 0
Numeric none = ⊥
Numeric (some t) = is_some (parse_i64 t) ≡ true

-- Every ref is one of the packet, and there is one unless the operation abstains; an operation that
-- creates a memory has the layer it requires and a body; a removal has the number of its target.
pub record IsGrounded (p : ConsolidationPacket) (i : MemoryOperationInput) (v : Validated)
    : Type 0 where
  pub known : All (λ r. contains r (packet_refs p) ≡ true) v.source_refs
  pub cites : (i.operation_type ≡ abstain) ⊎ (is_nil v.source_refs ≡ false)
  pub layered :
      (is_creating i.operation_type ≡ false)
      ⊎ (v.layer ≡ required_layer_for_operation i.operation_type)
  pub written : (is_creating i.operation_type ≡ false) ⊎ Written v.body
  pub aimed :
      ((i.operation_type == remove_or_supersede) ≡ false)
      ⊎ Numeric (clean_optional i.target_memory_id)

abbrev OnOk {ℓ} : {A : Type ℓ} → (A → Type 0) → Result Problem A → Type 0
OnOk P (ok a) = P a
OnOk P (err e) = Unit

clean_optional-Written :
    (s : Option String) → (clean_optional s ≡ none) ⊎ Written (clean_optional s)
unfolding clean_optional
clean_optional-Written none = inl refl
clean_optional-Written (some s) = elim (Bool-cases (is_empty (trim s))) [
  | inl k ↦ rw k (inl refl)
  | inr k ↦ rw k (inr (is_blank-empty s k))
]

module _ {A : Type 0} (P : Type 0) (Q : A → Type 0) where
  first : P → (r : Result Problem A) → OnOk (λ a. P ⊎ Q a) r
  first p (ok a) = inl p
  first p (err e) = tt

  second : (r : Result Problem A) → OnOk Q r → OnOk (λ a. P ⊎ Q a) r
  second (ok a) q = inr q
  second (err e) q = tt

module _ (i : MemoryOperationInput) where
  creating_layer-ok :
      (r l : Option String) → OnOk (λ o. o ≡ r) (creating_layer i.operation_type r l)
  creating_layer-ok none l = tt
  creating_layer-ok (some r) l = agreed (agreed_layer i.operation_type r l)
    where
      agreed : (c : Result Problem Done) → OnOk (λ o. o ≡ some r) (c >>= λ _. ok (some r))
      agreed (ok _) = refl
      agreed (err e) = tt

  layer-ok :
      OnOk
        (λ l.
          (is_creating i.operation_type ≡ false)
          ⊎ (l ≡ required_layer_for_operation i.operation_type))
        (layer_for_operation i)
  unfolding layer_for_operation
  layer-ok = elim (Bool-cases (is_creating i.operation_type)) [
    | inl k ↦ rw k (
        second (true ≡ false) (λ l. l ≡ required_layer_for_operation i.operation_type) _
          (creating_layer-ok (required_layer_for_operation i.operation_type)
            (clean_optional i.layer)))
    | inr k ↦
        rw k (first (false ≡ false) (λ l. l ≡ required_layer_for_operation i.operation_type) refl _)
  ]

  body_or_error-Written :
      (b : Option String) → (b ≡ none) ⊎ Written b → OnOk Written (body_or_error i.operation_type b)
  body_or_error-Written none h = tt
  body_or_error-Written (some b) (inl e) = absurd (ground (arith, e))
  body_or_error-Written (some b) (inr w) = w

  body-ok : OnOk (λ b. (is_creating i.operation_type ≡ false) ⊎ Written b) (required_body i)
  unfolding required_body
  body-ok = elim (Bool-cases (is_creating i.operation_type)) [
    | inl k ↦ rw k (
        second (true ≡ false) Written _
          (body_or_error-Written (clean_optional i.body) (clean_optional-Written i.body)))
    | inr k ↦ rw k (first (false ≡ false) Written refl _)
  ]

known_refs-ok :
    (rs ps : List String) → OnOk (λ _. All (λ r. contains r ps ≡ true) rs) (known_refs rs ps)
unfolding known_refs
known_refs-ok [] ps = tt
known_refs-ok (r ∷ rs) ps = elim (Bool-cases (contains r ps)) [
  | inl k ↦ rw k (mono (known_refs rs ps) (known_refs-ok rs ps))
  | inr k ↦ rw k tt
]
  where
    mono :
        (c : Result Problem Done)
        → OnOk (λ _. All (λ q. contains q ps ≡ true) rs) c
        → OnOk (λ _. (true ≡ true) × All (λ q. contains q ps ≡ true) rs) c
    mono (ok _) a = (refl, a)
    mono (err e) a = tt

refs-ok :
    (refs : List String) (p : ConsolidationPacket)
    → OnOk
        (λ rs. All (λ r. contains r (packet_refs p) ≡ true) rs)
        (validate_source_refs_against_packet refs p)
unfolding validate_source_refs_against_packet
refs-ok refs p =
    kept (known_refs (normalize_source_refs refs) (packet_refs p))
      (known_refs-ok (normalize_source_refs refs) (packet_refs p))
  where
    kept :
        (c : Result Problem Done)
        → OnOk (λ _. All (λ r. contains r (packet_refs p) ≡ true) (normalize_source_refs refs)) c
        → OnOk
            (λ rs. All (λ r. contains r (packet_refs p) ≡ true) rs)
            (c >>= λ _. ok (normalize_source_refs refs))
    kept (ok _) a = a
    kept (err e) a = tt

numeric_target-ok : (t : Option String) → OnOk (λ _. Numeric t) (numeric_target t)
numeric_target-ok none = tt
numeric_target-ok (some t) = elim (Bool-cases (is_some (parse_i64 t))) [
  | inl k ↦ rw k refl
  | inr k ↦ rw k tt
]

module _ (p : ConsolidationPacket) (i : MemoryOperationInput) where
  targeted-ok :
      OnOk
        (λ _.
          ((i.operation_type == remove_or_supersede) ≡ false)
          ⊎ Numeric (clean_optional i.target_memory_id))
        (targeted i)
  targeted-ok = elim (Bool-cases (i.operation_type == remove_or_supersede)) [
    | inl k ↦ rw k (
        second (true ≡ false) (λ _. Numeric (clean_optional i.target_memory_id))
          (numeric_target (clean_optional i.target_memory_id))
          (numeric_target-ok (clean_optional i.target_memory_id)))
    | inr k ↦ rw k (inl refl)
  ]

  cited-ok :
      (rs : List String)
      → OnOk (λ _. (i.operation_type ≡ abstain) ⊎ (is_nil rs ≡ false)) (cited i.operation_type rs)
  cited-ok rs = elim (Bool-cases (i.operation_type == abstain)) [
    | inl a ↦ elim (Bool-cases (is_nil rs)) [
      | inl n ↦ rw (a, n) (inl ((==_iff i.operation_type abstain).0 a))
      | inr n ↦ rw (a, n) (inr refl)
    ]
    | inr a ↦ elim (Bool-cases (is_nil rs)) [ inl n ↦ rw (a, n) tt | inr n ↦ rw (a, n) (inr refl) ]
  ]

  checked :
      (t : Result Problem Done) (l b : Result Problem (Option String))
      (r : Result Problem (List String))
      → OnOk
          (λ l.
            (is_creating i.operation_type ≡ false)
            ⊎ (l ≡ required_layer_for_operation i.operation_type))
          l
      → OnOk (λ b. (is_creating i.operation_type ≡ false) ⊎ Written b) b
      → OnOk (λ rs. All (λ r. contains r (packet_refs p) ≡ true) rs) r
      → OnOk (IsGrounded p i) (
          t >>= λ _. l >>= λ layer. b >>= λ body. r >>= λ refs. cited i.operation_type refs >>= λ _.
          targeted i >>= λ _. ok record {
            layer = layer;
            body = body;
            source_refs = refs;
            producer = producer_or_default (clean_optional i.producer);
          })
  checked (err e) l b r hl hb hr = tt
  checked (ok _) (err e) b r hl hb hr = tt
  checked (ok _) (ok l) (err e) r hl hb hr = tt
  checked (ok _) (ok l) (ok b) (err e) hl hb hr = tt
  checked (ok _) (ok l) (ok b) (ok r) hl hb hr =
      ends (cited i.operation_type r) (targeted i) (cited-ok r) targeted-ok
    where
      v : Validated
      v = record {
        layer = l;
        body = b;
        source_refs = r;
        producer = producer_or_default (clean_optional i.producer);
      }

      ends :
          (c t : Result Problem Done)
          → OnOk (λ _. (i.operation_type ≡ abstain) ⊎ (is_nil r ≡ false)) c
          → OnOk
              (λ _.
                ((i.operation_type == remove_or_supersede) ≡ false)
                ⊎ Numeric (clean_optional i.target_memory_id))
              t
          → OnOk (IsGrounded p i) (c >>= λ _. t >>= λ _. ok v)
      ends (err e) t hc ht = tt
      ends (ok _) (err e) hc ht = tt
      ends (ok _) (ok _) hc ht = record {
        known = hr;
        cites = hc;
        layered = hl;
        written = hb;
        aimed = ht;
      }

  validate-OnOk : OnOk (IsGrounded p i) (validate_memory_operation i p)
  unfolding validate_memory_operation
  validate-OnOk =
      checked (validate_operation_type i.operation_type) (layer_for_operation i) (required_body i)
        (validate_source_refs_against_packet i.source_refs p) (layer-ok i) (body-ok i)
        (refs-ok i.source_refs p)

  -- An operation that passes the checks cites only refs of the packet, at least one unless it
  -- abstains; if it creates a memory it has the layer that it requires and a body that is not blank,
  -- and if it removes one, the number of its target.
  pub validate-IsGrounded :
      (v : Validated) → validate_memory_operation i p ≡ ok v → IsGrounded p i v
  validate-IsGrounded v h = subst (OnOk (IsGrounded p i)) h validate-OnOk
