-- ===== src/Net/Discovery/Response/Names.antt =====
-- `AppendName` and `ReadName` of src/net/Mdns.cpp, one after the other.
use ipad_second_display.Common.{
  ℕ, zero, suc, ◌+◌, ◌%◌, ◌≤◌, ◌≡◌, refl, ap, ◌∙◌, sym, true, false, List, [], ◌∷◌, ◌++◌,
  append_assoc, append-nil, ◌==◌, leb, ltb, Bytes, length, length-append, drop, take, byte_at, All,
  arith, take_length_append,
}
use ipad_second_display.Net.Discovery.{read, append_label, read_name_loop, name_fuel, read_name}
use ipad_second_display.Net.Discovery.Response.Build.{append_labels, append_name}

-- A label of a name in text: up to 63 bytes, none of them a dot.
abbrev pub IsLabel : Bytes → Type 0
IsLabel label = (1 ≤ length label) × (length label ≤ 63) × All (λ c. (c == b'.') ≡ false) label

-- The labels behind the first one, each after its dot.
abbrev pub dotted : List Bytes → Bytes
dotted [] = []
dotted (l ∷ ls) = b'.' ∷ (l ++ dotted ls)

-- Labels in a packet: each after its length, and a 0 at the end.
abbrev wire : List Bytes → Bytes
wire [] = 0 ∷ []
wire (l ∷ ls) = length l ∷ (l ++ wire ls)

append_labels-label :
    (label l rest : Bytes)
    → All (λ c. (c == b'.') ≡ false) l
    → append_labels label (l ++ rest) ≡ append_labels (label ++ l) rest
unfolding append_labels
append_labels-label label [] rest h = ap (λ m. append_labels m rest) (sym (append-nil label))
append_labels-label label (c ∷ l) rest h = rw h.0 (
    append_labels-label (label ++ c ∷ []) l rest h.1
    ∙ ap (λ m. append_labels m rest) (append_assoc label (c ∷ []) l))

append_labels-dotted :
    (l : Bytes) (ls : List Bytes)
    → All IsLabel (l ∷ ls)
    → append_labels [] (l ++ dotted ls) ≡ wire (l ∷ ls)
unfolding append_labels
append_labels-dotted l [] h =
    let small : length l % 256 ≡ length l = omega (arith, h.0.1) in
    append_labels-label [] l [] h.0.2 ∙ rw small refl
append_labels-dotted l (m ∷ ls) h =
    let small : length l % 256 ≡ length l = omega (arith, h.0.1) in
    append_labels-label [] l (dotted (m ∷ ls)) h.0.2
    ∙ rw small (ap (λ t. length l ∷ (l ++ t)) (append_labels-dotted m ls h.1))

-- The byte behind the front, and the label behind that byte.
byte_at-append :
    (front : Bytes) (c : ℕ) (rest : Bytes) → byte_at (front ++ c ∷ rest) (length front) ≡ c
byte_at-append [] c rest = refl
byte_at-append (x ∷ front) c rest = byte_at-append front c rest

drop-append :
    (front : Bytes) (c : ℕ) (rest : Bytes) → drop (length front + 1) (front ++ c ∷ rest) ≡ rest
drop-append [] c rest = refl
drop-append (x ∷ front) c rest =
    let later : suc (length front) + 1 ≡ suc (length front + 1) = omega arith in
    ap (λ n. drop n (x ∷ (front ++ c ∷ rest))) later ∙ drop-append front c rest

label_read :
    (fuel hops : ℕ) (front l rest out : Bytes)
    → 1 ≤ length l
    → length l ≤ 63
    → read_name_loop (suc fuel) (front ++ length l ∷ (l ++ rest)) (length front) 0 hops out
      ≡ read_name_loop fuel
          (front ++ length l ∷ (l ++ rest))
          (length front + 1 + length l)
          0
          hops
          (append_label out l)
unfolding read_name_loop
label_read fuel hops front l rest out h k =
    let packet = front ++ length l ∷ (l ++ rest) in
    let size : length packet ≡ length front + suc (length l + length rest) =
      omega (arith, length-append front (length l ∷ (l ++ rest)), length-append l rest) in
    let inside : ltb (length front) (length packet) ≡ true = ground (arith, size) in
    let byte = byte_at-append front (length l) (l ++ rest) in
    let more : (length l == 0) ≡ false = ground arith in
    let plain : leb 192 (length l) ≡ false = ground arith in
    let fits : ltb (length packet) (length front + 1 + length l) ≡ false = ground (arith, size) in
    let label : take (length l) (drop (length front + 1) packet) ≡ l =
      ap (take (length l)) (drop-append front (length l) (l ++ rest)) ∙ take_length_append l rest in
    let there : leb (length front + 1) (length packet) ≡ true = ground (arith, size) in
    let whole : leb (length front + 1 + length l) (length packet) ≡ true = ground (arith, size) in
    rw inside (rw there (rw byte (rw more (rw plain (rw fits (rw whole (rw label refl)))))))

end_read :
    (fuel hops : ℕ) (front rest out : Bytes)
    → read_name_loop (suc fuel) (front ++ 0 ∷ rest) (length front) 0 hops out
      ≡ read (length front + 1) out
unfolding read_name_loop
end_read fuel hops front rest out =
    let inside : ltb (length front) (length (front ++ 0 ∷ rest)) ≡ true =
      ground (arith, length-append front (0 ∷ rest)) in
    let there : leb (length front + 1) (length (front ++ 0 ∷ rest)) ≡ true =
      ground (arith, length-append front (0 ∷ rest)) in
    rw inside (rw there (rw (byte_at-append front 0 rest) refl))

-- The same packet, with the label counted to its front.
moved :
    (fuel hops : ℕ) (front l rest out : Bytes)
    → read_name_loop fuel (front ++ length l ∷ (l ++ rest)) (length front + 1 + length l) 0 hops out
      ≡ read_name_loop fuel
          ((front ++ length l ∷ l) ++ rest)
          (length (front ++ length l ∷ l))
          0
          hops
          out
moved fuel hops front l rest out =
    let place : length front + 1 + length l ≡ length (front ++ length l ∷ l) =
      omega (arith, length-append front (length l ∷ l)) in
    ap (λ p. read_name_loop fuel (front ++ length l ∷ (l ++ rest)) p 0 hops out) place
    ∙ ap (λ t. read_name_loop fuel t (length (front ++ length l ∷ l)) 0 hops out)
        (sym (append_assoc front (length l ∷ l) rest))

append_label-append :
    (out m rest : Bytes) → 1 ≤ length out → append_label out m ++ rest ≡ out ++ b'.' ∷ (m ++ rest)
unfolding append_label
append_label-append [] m rest h = absurd (omega arith)
append_label-append (o ∷ out) m rest h =
    ap (λ t. t ++ rest) (append_assoc (o ∷ out) (b'.' ∷ []) m)
    ∙ append_assoc (o ∷ out) (b'.' ∷ m) rest

append_label-longer : (out l : Bytes) → length l ≤ length (append_label out l)
unfolding append_label
append_label-longer [] l = omega arith
append_label-longer (o ∷ out) l = omega (arith, length-append ((o ∷ out) ++ b'.' ∷ []) l)

first_read :
    (fuel hops : ℕ) (front back l : Bytes) (ls : List Bytes) (out : Bytes)
    → IsLabel l
    → read_name_loop (suc fuel) (front ++ (wire (l ∷ ls) ++ back)) (length front) 0 hops out
      ≡ read_name_loop fuel
          ((front ++ length l ∷ l) ++ (wire ls ++ back))
          (length (front ++ length l ∷ l))
          0
          hops
          (append_label out l)
first_read fuel hops front back l ls out h =
    ap (λ t. read_name_loop (suc fuel) (front ++ length l ∷ t) (length front) 0 hops out)
      (append_assoc l (wire ls) back)
    ∙ label_read fuel hops front l (wire ls ++ back) out h.0 h.1
    ∙ moved fuel hops front l (wire ls ++ back) (append_label out l)

-- Every label takes a byte and more.
labels_shorter : (l : Bytes) (ls : List Bytes) → length ls + 1 ≤ length (wire (l ∷ ls))
labels_shorter l [] = omega (arith, length-append l (0 ∷ []))
labels_shorter l (m ∷ ls) = omega (arith, length-append l (wire (m ∷ ls)), labels_shorter m ls)

-- From a label on, with `out` what the earlier labels made.
labels_read :
    (fuel hops : ℕ) (front back : Bytes) (l : Bytes) (ls : List Bytes) (out : Bytes)
    → All IsLabel (l ∷ ls)
    → length ls + 2 ≤ fuel
    → read_name_loop fuel (front ++ (wire (l ∷ ls) ++ back)) (length front) 0 hops out
      ≡ read (length front + length (wire (l ∷ ls))) (append_label out l ++ dotted ls)
labels_read zero hops front back l ls out h k = absurd (omega arith)
labels_read (suc zero) hops front back l ls out h k = absurd (omega arith)
labels_read (suc (suc fuel)) hops front back l [] out h k =
    let stop : length (front ++ length l ∷ l) + 1 ≡ length front + length (wire (l ∷ [])) =
      omega (arith, length-append front (length l ∷ l), length-append l (0 ∷ [])) in
    first_read (suc fuel) hops front back l [] out h.0
    ∙ end_read fuel hops (front ++ length l ∷ l) back (append_label out l)
    ∙ ap (λ n. read n (append_label out l)) stop
    ∙ ap (read (length front + length (wire (l ∷ [])))) (sym (append-nil (append_label out l)))
labels_read (suc (suc fuel)) hops front back l (m ∷ ls) out h k =
    let stop : length (front ++ length l ∷ l) + length (wire (m ∷ ls))
        ≡ length front + length (wire (l ∷ m ∷ ls)) =
      omega (arith, length-append front (length l ∷ l), length-append l (wire (m ∷ ls))) in
    first_read (suc fuel) hops front back l (m ∷ ls) out h.0
    ∙ labels_read (suc fuel) hops (front ++ length l ∷ l) back m ls (append_label out l) h.1
        (omega arith)
    ∙ ap (λ n. read n (append_label (append_label out l) m ++ dotted ls)) stop
    ∙ ap (read (length front + length (wire (l ∷ m ∷ ls)))) (
        append_label-append (append_label out l) m (dotted ls)
          (omega (arith, h.0.0, append_label-longer out l)))

-- A name that `AppendName` writes anywhere in a packet, with labels of 1 to 63 bytes, is read back by `ReadName`, which ends right behind it.
pub read_name-append_name :
    (front back l : Bytes) (ls : List Bytes)
    → All IsLabel (l ∷ ls)
    → read_name (front ++ (append_name (l ++ dotted ls) ++ back)) (length front)
      ≡ read (length front + length (append_name (l ++ dotted ls))) (l ++ dotted ls)
unfolding read_name append_label
read_name-append_name front back l ls h =
    let packet = front ++ (wire (l ∷ ls) ++ back) in
    let enough : length ls + 2 ≤ name_fuel packet = omega (
      arith,
      length-append front (wire (l ∷ ls) ++ back),
      length-append (wire (l ∷ ls)) back,
      labels_shorter l ls,
    ) in
    rw (append_labels-dotted l ls h) (labels_read (name_fuel packet) 0 front back l ls [] h enough)
