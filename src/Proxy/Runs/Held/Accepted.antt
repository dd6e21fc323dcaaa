-- ===== src/Proxy/Runs/Held/Accepted.antt =====
-- An id or a name that is accepted is accepted again.
use tuixiu.Prelude.{
  ℕ, ◌≤◌, String, Option, none, some, Bool, arith, ltb, refl, ◌≡◌, inl, inr, Bool-cases,
  if◌then◌else◌, ◌∙◌, ap, sym, any,
}
use tuixiu.Prelude.{trim, is_empty, codes, trim-trim}
use tuixiu.Prelude.{◌<|◌}
use Prim.Native.String
use tuixiu.Acp.Chunks.{utf16_length}
use tuixiu.Proxy.Runs.{
  is_separator, is_colon, is_name, validate_run_id, validate_instance_name, valid, invalid,
  instance_name_for, Checked, keepalive_of,
}

abbrev text_or : String → Checked String → String
text_or d (valid x) = x
text_or d (invalid e) = d

validate_run_id-text : (v : String) → text_or (trim v) (validate_run_id v) ≡ trim v
unfolding validate_run_id
validate_run_id-text v =
    let t = trim v in
    elim (Bool-cases (is_empty t)) [
      | inl e ↦ rw e refl
      | inr n ↦ elim (Bool-cases (ltb 200 (utf16_length t))) [
        | inl e ↦ rw (n, e) refl
        | inr m ↦ elim (Bool-cases (any is_separator (codes t))) [
          | inl e ↦ rw (n, m, e) refl
          | inr p ↦ elim (Bool-cases (any is_colon (codes t))) [
            | inl e ↦ rw (n, m, p, e) refl
            | inr q ↦ rw (n, m, p, q) refl
          ]
        ]
      ]
    ]

validate_run_id-trim : (v : String) → validate_run_id (trim v) ≡ validate_run_id v
unfolding validate_run_id
validate_run_id-trim v = rw (trim-trim v) refl

-- What is accepted is the text without the spaces around it, and accepted again.
pub validate_run_id-again :
    (v : String) {k : String}
    → validate_run_id v ≡ valid k
    → (trim k ≡ k) × (validate_run_id k ≡ valid k)
validate_run_id-again v {k} h =
    let same : k ≡ trim v = ap (text_or (trim v)) (sym h) ∙ validate_run_id-text v in
    (ap trim same ∙ trim-trim v ∙ sym same, ap validate_run_id same ∙ validate_run_id-trim v ∙ h)

validate_instance_name-text : (v : String) → text_or (trim v) (validate_instance_name v) ≡ trim v
unfolding validate_instance_name
validate_instance_name-text v =
    let t = trim v in
    elim (Bool-cases (is_empty t)) [
      | inl e ↦ rw e refl
      | inr n ↦ elim (Bool-cases (ltb 200 (utf16_length t))) [
        | inl e ↦ rw (n, e) refl
        | inr m ↦ elim (Bool-cases (is_name (codes t))) [
          | inl e ↦ rw (n, m, e) refl
          | inr p ↦ rw (n, m, p) refl
        ]
      ]
    ]

validate_instance_name-trim :
    (v : String) → validate_instance_name (trim v) ≡ validate_instance_name v
unfolding validate_instance_name
validate_instance_name-trim v = rw (trim-trim v) refl

validate_instance_name-again :
    (v : String) {k : String}
    → validate_instance_name v ≡ valid k
    → (trim k ≡ k) × (validate_instance_name k ≡ valid k)
validate_instance_name-again v {k} h =
    let same : k ≡ trim v = ap (text_or (trim v)) (sym h) ∙ validate_instance_name-text v in
    (
      ap trim same ∙ trim-trim v ∙ sym same,
      ap validate_instance_name same ∙ validate_instance_name-trim v ∙ h,
    )

pub instance_name_for-again :
    (asked : Option String) (run_id : String) {k : String}
    → instance_name_for asked run_id ≡ valid k
    → (trim k ≡ k) × (validate_instance_name k ≡ valid k)
unfolding instance_name_for
instance_name_for-again asked run_id {k} h =
    let own = validate_instance_name (String.◌++◌ "tuixiu-run-" run_id) in
    let given = validate_instance_name (asked <| "") in
    let chosen = λ (b : Bool). if b then own else given in
    elim (Bool-cases (is_empty (trim (asked <| "")))) [
      | inl e ↦
          validate_instance_name-again (String.◌++◌ "tuixiu-run-" run_id) (sym (ap chosen e) ∙ h)
      | inr e ↦ validate_instance_name-again (asked <| "") (sym (ap chosen e) ∙ h)
    ]

pub keepalive_of-bounds : (ttl : Option ℕ) → (60 ≤ keepalive_of ttl) × (keepalive_of ttl ≤ 86400)
unfolding keepalive_of
keepalive_of-bounds none = (ground arith, ground arith)
keepalive_of-bounds (some n) = (ground arith, ground arith)
