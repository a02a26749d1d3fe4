-- ===== src/Log/Lines.antt =====
-- What the system's log gets of the lines that are written.
use worker_informer.Base.{
  ℕ, ◌%◌, List, [], ◌∷◌, ◌++◌, append-nil, append_assoc, ◌≡◌, refl, sym, ap, ◌∙◌, arith, Bytes, All,
  AllBytes, Lacks, All-append, c_string, is_empty, false, ◌==◌,
}
use worker_informer.Log.Stream.{Entry, Log, overflow, sync, write, end_line}

write_buffer : (s : Bytes) (l : Log) → AllBytes s → write s l ≡ record l { buffer = l.buffer ++ s }
unfolding write overflow
write_buffer [] l h = ap (λ b. record l { buffer = b }) (sym (append-nil l.buffer))
write_buffer (c ∷ s) l (h, hs) =
    let byte : c % 256 ≡ c = omega arith in
    write_buffer s _ hs
    ∙ ap (λ b. record l { buffer = b })
        (append_assoc l.buffer (c % 256 ∷ []) s ∙ ap (λ x. l.buffer ++ x ∷ s) byte)

-- Each line in its order.
abbrev pub write_lines : List Bytes → Log → Log
write_lines [] l = l
write_lines (s ∷ rest) l = write_lines rest (end_line (write s l))

-- One entry for each line, of the stream's priority.
abbrev pub entries : ℕ → List Bytes → List Entry
entries p [] = []
entries p (s ∷ rest) = record { priority = p; text = s ++ 10 ∷ [] } ∷ entries p rest

-- Bytes without a NUL.
abbrev pub IsLine : Bytes → Type 0
IsLine s = AllBytes s × Lacks 0 s

c_string_all : (s : Bytes) → Lacks 0 s → c_string s ≡ s
unfolding c_string
c_string_all [] h = refl
c_string_all (c ∷ s) (h, hs) =
    let other : (c == 0) ≡ false = ground arith in rw other (ap (λ t. c ∷ t) (c_string_all s hs))

line_nonempty : (s : Bytes) → is_empty (s ++ 10 ∷ []) ≡ false
line_nonempty [] = refl
line_nonempty (c ∷ s) = refl

-- A stream with nothing in its buffer.
abbrev pub flushed : ℕ → List Entry → Log
flushed p sent = record { buffer = []; priority = p; sent = sent }

end_line_lem :
    (s : Bytes) (p : ℕ) (sent : List Entry)
    → IsLine s
    → end_line (write s (flushed p sent))
      ≡ flushed p (sent ++ record { priority = p; text = s ++ 10 ∷ [] } ∷ [])
unfolding sync overflow
end_line_lem s p sent (bytes, no_nul) =
    let text : c_string (s ++ 10 ∷ []) ≡ s ++ 10 ∷ [] =
      c_string_all (s ++ 10 ∷ []) (All-append _ s _ no_nul (omega arith, tt)) in
    ap end_line (write_buffer s (flushed p sent) bytes) ∙ rw (line_nonempty s, text) refl

-- Lines of bytes without a NUL that are written to a stream with an empty buffer reach the system's log,
-- each as one entry with the stream's priority and in their order, and the buffer is empty again.
pub write_lines-sent :
    (lines : List Bytes) (p : ℕ) (sent : List Entry)
    → All IsLine lines
    → write_lines lines (flushed p sent) ≡ flushed p (sent ++ entries p lines)
write_lines-sent [] p sent h = ap (flushed p) (sym (append-nil sent))
write_lines-sent (s ∷ rest) p sent (h, hs) =
    let next : Entry = record { priority = p; text = s ++ 10 ∷ [] } in
    ap (write_lines rest) (end_line_lem s p sent h)
    ∙ write_lines-sent rest p (sent ++ next ∷ []) hs
    ∙ ap (flushed p) (append_assoc sent (next ∷ []) (entries p rest))
