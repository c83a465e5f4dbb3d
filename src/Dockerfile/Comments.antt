-- ===== src/Dockerfile/Comments.antt =====
-- dockerfile.py: a comment line changes no instruction, wherever it stands.
use container_platform.Prelude.{
  ℕ, ◌+◌, ◌≡◌, refl, ap, ◌∙◌, sym, inl, inr, true, ◌&&◌, ◌||◌, Option, none, some, List, [], ◌∷◌,
  ◌++◌, map, if◌then◌else◌, Bool-cases,
}
use container_platform.Dockerfile.{
  Text, strip, is_comment, is_empty, continued, Lines, is_nil, end_line, take_line, read_line,
  read_lines, flush, logical_lines, join_parts,
}

abbrev pub texts : List (ℕ × Text) → List Text
texts lines = map (λ l. l.1) lines

texts-append : (ls ms : List (ℕ × Text)) → texts (ls ++ ms) ≡ texts ls ++ texts ms
texts-append [] ms = refl
texts-append (l ∷ ls) ms = ap (λ ts. l.1 ∷ ts) (texts-append ls ms)

-- The reading of lines without their numbers: the texts that are out, and the buffer.
abbrev View : Type 0
View = List Text × List Text

abbrev view : Lines → View
view s = (texts s.out, s.buffer)

abbrev end_view : Text → View → View
end_view line (out, []) = (out ++ (line ∷ []), [])
end_view line (out, p ∷ ps) = (out ++ (join_parts ((p ∷ ps) ++ (line ∷ [])) ∷ []), [])

abbrev take_view : Text → Option Text → View → View
take_view line (some part) (out, buffer) = (out, buffer ++ (strip part ∷ []))
take_view line none v = end_view line v

abbrev read_view : Text → View → View
read_view stripped v =
    if is_comment stripped || is_nil v.1 && is_empty stripped
    then v
    else take_view stripped (continued stripped) v

abbrev read_views : List Text → View → View
read_views [] v = v
read_views (raw ∷ raws) v = read_views raws (read_view (strip raw) v)

abbrev flush_view : View → List Text
flush_view (out, []) = out
flush_view (out, p ∷ ps) = out ++ (join_parts (p ∷ ps) ∷ [])

view-end_line :
    (n : ℕ) (line : Text) (out : List (ℕ × Text)) (buffer : List Text) (start : ℕ)
    → view (end_line n line (record { out = out; buffer = buffer; start = start }))
      ≡ end_view line (texts out, buffer)
unfolding end_line
view-end_line n line out [] start = ap (λ o. (o, [])) (texts-append out ((n, line) ∷ []))
view-end_line n line out (p ∷ ps) start = ap (λ o. (o, [])) (texts-append out _)

view-take_line :
    (n : ℕ) (line : Text) (o : Option Text) (s : Lines)
    → view (take_line n line o s) ≡ take_view line o (view s)
unfolding take_line
view-take_line n line (some part) s = refl
view-take_line n line none s = view-end_line n line s.out s.buffer s.start

view-read_line :
    (n : ℕ) (line : Text) (s : Lines) → view (read_line n line s) ≡ read_view line (view s)
unfolding read_line
view-read_line n line s = elim (Bool-cases (is_comment line || is_nil s.buffer && is_empty line)) [
  | inl skipped ↦ rw skipped refl
  | inr taken ↦ rw taken (view-take_line n line (continued line) s)
]

view-read_lines :
    (n : ℕ) (raws : List Text) (s : Lines) → view (read_lines n raws s) ≡ read_views raws (view s)
unfolding read_lines
view-read_lines n [] s = refl
view-read_lines n (raw ∷ raws) s =
    view-read_lines (n + 1) raws (read_line n (strip raw) s)
    ∙ ap (read_views raws) (view-read_line n (strip raw) s)

texts-flush :
    (out : List (ℕ × Text)) (buffer : List Text) (start : ℕ)
    → texts (flush (record { out = out; buffer = buffer; start = start }))
      ≡ flush_view (texts out, buffer)
unfolding flush
texts-flush out [] start = refl
texts-flush out (p ∷ ps) start = texts-append out _

texts-logical_lines :
    (raws : List Text) → texts (logical_lines raws) ≡ flush_view (read_views raws ([], []))
unfolding logical_lines
texts-logical_lines raws =
    let s = read_lines 1 raws (record { out = []; buffer = []; start = 0 }) in
    texts-flush s.out s.buffer s.start
    ∙ ap flush_view (view-read_lines 1 raws (record { out = []; buffer = []; start = 0 }))

read_views-append :
    (xs ys : List Text) (v : View) → read_views (xs ++ ys) v ≡ read_views ys (read_views xs v)
read_views-append [] ys v = refl
read_views-append (x ∷ xs) ys v = read_views-append xs ys (read_view (strip x) v)

-- A line that starts with `#` after its spaces can be put anywhere among the lines, inside a
-- continued instruction too: the texts of the logical lines stay the same.
pub logical_lines_comment :
    (before after : List Text) (comment : Text)
    → is_comment (strip comment) ≡ true
    → texts (logical_lines (before ++ (comment ∷ after))) ≡ texts (logical_lines (before ++ after))
logical_lines_comment before after comment e =
    let v = read_views before ([], []) in
    let skipped : read_view (strip comment) v ≡ v = rw e refl in
    texts-logical_lines (before ++ (comment ∷ after))
    ∙ ap flush_view (
        read_views-append before (comment ∷ after) ([], [])
        ∙ ap (read_views after) skipped
        ∙ sym (read_views-append before after ([], [])))
    ∙ sym (texts-logical_lines (before ++ after))
