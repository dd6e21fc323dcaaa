-- ===== src/Acp/Chunks/Visible.antt =====
-- A flush, and the storing of an update, by the text that a run shows.
use tuixiu.Prelude.{
  String, Option, none, some, false, List, [], ◌∷◌, ◌≡◌, refl, sym, ap, ◌∙◌, ◌==◌, eq_iff, eq_refl,
  Option-cases, Bool-cases, inl, inr, arith, if◌then◌else◌, subst, ◌⊎◌,
}
use Prim.Native.String.{◌++◌ as cat}
use text.Mathlib.TextLemmas.{append-nil}
use tuixiu.Runs.AgentOutput.{extract_agent_text_from_events}
use tuixiu.Acp.Chunks.{
  BufferedChunkSegment, RunChunkBuffer, Tunnel, store_segments, flush_run_chunk_buffer, set_buffer,
}
use tuixiu.Acp.Chunks.Text.{
  text_of, stored_text, events_of, stored_text-append, store_segments-events, select-events_of,
  select-events_of_other,
}

-- The text that a run shows once its buffer is flushed.
pub ne_sym : (a b : String) → (a == b) ≡ false → (b == a) ≡ false
ne_sym a b apart = ground (arith, eq_iff a b, eq_iff b a)

abbrev pub waiting : Option RunChunkBuffer → List BufferedChunkSegment
waiting none = []
waiting (some buf) = buf.segments

abbrev pub pending : String → Tunnel → List BufferedChunkSegment
pending run_id t = waiting (t.buffers run_id)

pub nil_or_cons :
    {A : Type 0} (xs : List A) → (xs ≡ []) ⊎ ((x : A) × (rest : List A) × (xs ≡ x ∷ rest))
nil_or_cons [] = inl refl
nil_or_cons (x ∷ rest) = inr (x, rest, refl)

abbrev pub visible_text : String → Tunnel → String
visible_text run_id t =
    cat (stored_text run_id t.db) (text_of (events_of run_id (pending run_id t)))

module _ (run_id : String) (t : Tunnel) {buf : RunChunkBuffer} {seg : BufferedChunkSegment}
    {rest : List BufferedChunkSegment} where
  pub flush_run_chunk_buffer-found :
      (other : String)
      → t.buffers other ≡ some buf
      → buf.segments ≡ seg ∷ rest
      → flush_run_chunk_buffer other t
        ≡ set_buffer other none (record t { db = store_segments other (seg ∷ rest) t.db })
  unfolding flush_run_chunk_buffer
  flush_run_chunk_buffer-found other found filled = rw (found, filled, flush_run_chunk_buffer) refl

  flush_run_chunk_buffer-own :
      t.buffers run_id ≡ some buf
      → buf.segments ≡ seg ∷ rest
      → visible_text run_id (flush_run_chunk_buffer run_id t) ≡ visible_text run_id t
  unfolding extract_agent_text_from_events
  flush_run_chunk_buffer-own found filled =
      ap (visible_text run_id) (flush_run_chunk_buffer-found run_id found filled)
      ∙ ap
          (λ b.
            cat (stored_text run_id (store_segments run_id (seg ∷ rest) t.db))
              (text_of (events_of run_id (waiting (if b then none else t.buffers run_id)))))
          (eq_refl run_id)
      ∙ append-nil (stored_text run_id (store_segments run_id (seg ∷ rest) t.db))
      ∙ stored_text-append run_id t.db (events_of run_id (seg ∷ rest))
          (store_segments run_id (seg ∷ rest) t.db) (store_segments-events run_id (seg ∷ rest) t.db)
      ∙ ap (λ es. cat (stored_text run_id t.db) (text_of es)) (select-events_of run_id (seg ∷ rest))
      ∙ ap (λ segs. cat (stored_text run_id t.db) (text_of (events_of run_id segs)))
          (sym (ap waiting found ∙ filled))

  flush_run_chunk_buffer-other :
      (other : String)
      → (other == run_id) ≡ false
      → t.buffers other ≡ some buf
      → buf.segments ≡ seg ∷ rest
      → visible_text run_id (flush_run_chunk_buffer other t) ≡ visible_text run_id t
  unfolding extract_agent_text_from_events
  flush_run_chunk_buffer-other other apart found filled =
      ap (visible_text run_id) (flush_run_chunk_buffer-found other found filled)
      ∙ ap
          (λ b.
            cat (stored_text run_id (store_segments other (seg ∷ rest) t.db))
              (text_of (events_of run_id (waiting (if b then none else t.buffers run_id)))))
          (ne_sym other run_id apart)
      ∙ ap (λ u. cat u (text_of (events_of run_id (pending run_id t))))
          (stored_text-append run_id t.db (events_of other (seg ∷ rest))
              (store_segments other (seg ∷ rest) t.db)
              (store_segments-events other (seg ∷ rest) t.db)
            ∙ ap (λ es. cat (stored_text run_id t.db) (text_of es))
                (select-events_of_other run_id other (seg ∷ rest) apart)
            ∙ append-nil (stored_text run_id t.db))

pub flush_run_chunk_buffer-visible_text :
    (run_id other : String) (t : Tunnel)
    → visible_text run_id (flush_run_chunk_buffer other t) ≡ visible_text run_id t
unfolding flush_run_chunk_buffer
flush_run_chunk_buffer-visible_text run_id other t = elim (Option-cases (t.buffers other)) [
  | inl absent ↦ rw (absent, flush_run_chunk_buffer) refl
  | inr (buf, found) ↦ elim (nil_or_cons buf.segments) [
    | inl bare ↦ rw (found, bare, flush_run_chunk_buffer) refl
    | inr (seg, rest, filled) ↦ elim (Bool-cases (other == run_id)) [
      | inl same ↦
          subst
            (λ o.
              (t.buffers o ≡ some buf)
              → visible_text run_id (flush_run_chunk_buffer o t) ≡ visible_text run_id t)
            (sym ((eq_iff other run_id).0 same)) (λ f. flush_run_chunk_buffer-own run_id t f filled)
            found
      | inr apart ↦ flush_run_chunk_buffer-other run_id t other apart found filled
    ]
  ]
]
