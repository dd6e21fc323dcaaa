-- ===== src/Acp/Chunks/Bounds.antt =====
-- What a buffer holds between the tasks, and how much.
use Prim.Native.Char.{code}
use Prim.Native.String.{◌++◌ as cat, String}
use text.Mathlib.TextLemmas.{cons-append, nil-append}
use tuixiu.Prelude.{
  [], ◌∷◌, some, ap, ◌∙◌, arith, ◌≡◌, ◌<◌, ◌≤◌, Bool-cases, inl, inr, Option-cases, ◌+◌, ◌-◌,
}
use tuixiu.Acp.Chunks.{
  List, RunChunkBuffer, Tunnel, utf16_length, kept_text, BufferedChunkSegment, slice_to, ℕ,
  same_stream, false, chunk_max_buffer_chars, true, Option, grown, unit_count, leb,
}

abbrev pub char_count : List BufferedChunkSegment → ℕ
char_count [] = 0
char_count (seg ∷ rest) = utf16_length seg.text + char_count rest

abbrev pub Filled : List BufferedChunkSegment → Type 0
Filled [] = ⊥
Filled (_ ∷ _) = Unit

-- Segments of one stream that follow each other would have been joined.
abbrev pub Apart : List BufferedChunkSegment → Type 0
Apart [] = Unit
Apart (_ ∷ []) = Unit
Apart (first ∷ second ∷ rest) = (same_stream first second ≡ false) × Apart (second ∷ rest)

pub record IsBuffer (buf : RunChunkBuffer) : Type 0 where
  pub counted : buf.total_chars ≡ char_count buf.segments
  pub bounded : buf.total_chars < chunk_max_buffer_chars
  pub armed : buf.timer ≡ true
  pub filled : Filled buf.segments
  pub apart : Apart buf.segments

abbrev pub AreBuffers : Tunnel → Type 0
AreBuffers t = (run_id : String) (buf : RunChunkBuffer) → t.buffers run_id ≡ some buf → IsBuffer buf

pub utf16_length-append : (s t : String) → utf16_length (cat s t) ≡ utf16_length s + utf16_length t
unfolding utf16_length
utf16_length-append String.[] t = ap utf16_length (nil-append t) ∙ omega arith
utf16_length-append (String.◌∷◌ c s) t =
    ap utf16_length (cons-append c s t) ∙ ground (arith, utf16_length-append s t)

fits_beside : (u r n : ℕ) → leb u n ≡ true → r ≤ n - u → u + r ≤ n
fits_beside u r n h k = ground arith

utf16_length-slice_to : (n : ℕ) (s : String) → utf16_length (slice_to n s) ≤ n
unfolding utf16_length slice_to
utf16_length-slice_to n String.[] = omega arith
utf16_length-slice_to n (String.◌∷◌ c s) = elim (Bool-cases (leb (unit_count (code c)) n)) [
  | inl room ↦ rw room (
      fits_beside (unit_count (code c)) (utf16_length (slice_to (n - unit_count (code c)) s)) n room
        (utf16_length-slice_to (n - unit_count (code c)) s))
  | inr full ↦ rw full (omega arith)
]

kept_text-bound : (text : String) → utf16_length (kept_text text) ≤ chunk_max_buffer_chars
unfolding kept_text
kept_text-bound text = ground (arith, utf16_length-slice_to chunk_max_buffer_chars text)

module _ (old : Option RunChunkBuffer) (seg : BufferedChunkSegment) where
  abbrev next : RunChunkBuffer
  next = grown old seg

  grown-below :
      ((b : RunChunkBuffer) → old ≡ some b → IsBuffer b)
      → next.total_chars < chunk_max_buffer_chars + chunk_max_buffer_chars
  unfolding grown
  grown-below h = elim (Option-cases old) [
    | inl bare ↦ rw (bare, grown) (ground (arith, kept_text-bound seg.text))
    | inr (b, found) ↦
        rw (found, grown) (ground (arith, kept_text-bound seg.text, (h b found).bounded))
  ]
