-- ===== src/Http/Response/Lines.antt =====
-- The lines of a response: what an incomplete one does, and that the loop over the headers ends.
use hulatang_io.Base.{
  ℕ, zero, suc, ◌+◌, ◌≤◌, ◌<◌, ◌≡◌, ◌≢◌, refl, sym, ap, ◌∙◌, inl, inr, [], ◌∷◌, arith, Option-cases,
  none, some, Text, Outcome, ok, undefined, diverged, >>=-ends,
}
use hulatang_io.Buffer.{Buffer, find_crlf, find_crlf_from}
use hulatang_io.Http.Response.{
  Builder, next_line, current_line, status_line, message_header, message_loop, message_line, parse,
  build_from_buffer,
}

-- A buffer with no line break in it, such as one that holds only a part of the status line, is read
-- outside: the builder makes a text of a null pointer, and does not wait for data.
pub build_from_buffer-no_crlf : (b : Buffer) → find_crlf b ≡ none → build_from_buffer b ≡ undefined
unfolding build_from_buffer parse status_line current_line
build_from_buffer-no_crlf b h = rw (h, current_line)

-- The line break is not before the start of the line.
abbrev IsAhead : Builder → Type 0
IsAhead s = (c : ℕ) → s.crlf ≡ some c → s.start ≤ c

next_line-ends : (s : Builder) → next_line s ≢ diverged
unfolding next_line find_crlf_from
next_line-ends s = ground arith

current_line-ends : (s : Builder) → current_line s ≢ diverged
unfolding current_line
current_line-ends s = ground arith

-- The start moves on by two bytes at least, and stays within the buffer.
next_line_moves :
    (s s' : Builder)
    → IsAhead s
    → next_line s ≡ ok s'
    → (s.start + 2 ≤ s'.start)
      × (s'.start ≤ s.buf.writer_index)
      × (s'.buf.writer_index ≡ s.buf.writer_index)
unfolding next_line find_crlf_from
next_line_moves s s' ahead e = elim (Option-cases s.crlf) [
  | inl p ↦ ground arith
  | inr (c, p) ↦ let h = ahead c p in ground arith
]

current_line-IsAhead : (s : Builder) (line : Text) → current_line s ≡ ok line → IsAhead s
unfolding current_line
current_line-IsAhead s line e c p = ground arith

header_ends :
    (next : Builder → Outcome Builder) (s : Builder) (line : Text)
    → ((t : Builder) → t.start ≡ s.start → t.crlf ≡ s.crlf → t.buf ≡ s.buf → next t ≢ diverged)
    → message_header next s line ≢ diverged
unfolding message_header
header_ends next s [] h = λ e. cc
header_ends next s (c ∷ cs) h = h _ refl refl refl

message_loop_total :
    (fuel : ℕ) (s : Builder)
    → IsAhead s
    → s.buf.writer_index < s.start + suc fuel
    → message_loop (suc fuel) s ≢ diverged
unfolding message_loop
message_loop_total zero s ahead h =
    >>=-ends (next_line s) _ (next_line-ends s)
      λ s' e. absurd (omega (arith, next_line_moves s s' ahead e))
message_loop_total (suc fuel) s ahead h = >>=-ends (next_line s) _ (next_line-ends s) λ s' e.
    let moved = next_line_moves s s' ahead e in
    >>=-ends (current_line s') _ (current_line-ends s') λ line k.
      header_ends (message_loop (suc fuel)) s' line λ t p q r.
        message_loop_total fuel t (λ c x. rw p (current_line-IsAhead s' line k c (sym q ∙ x)))
          (omega (arith, moved, ap (λ (b : Buffer). b.writer_index) r, p))

-- The loop over the headers ends within the fuel that it is given, whatever the buffer holds, where
-- the first line break is not before the start: it comes to the blank line, or it fails.
pub message_line-ends : (s : Builder) → IsAhead s → message_line s ≢ diverged
unfolding message_line
message_line-ends s ahead = message_loop_total s.buf.writer_index _ ahead (omega arith)
