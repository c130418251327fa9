-- ===== src/Pins/Carried.antt =====
-- The shapes of the events alone decide whether there is news, and events that were carried over, or
-- pins that were just taken, are none.
use mcpgw.Base.{
  if◌then◌else◌, decided, ℕ, suc, ◌≡◌, refl, sym, ap, ◌∙◌, ◌↔◌, inl, Bool, true, false, ◌&&◌,
  Option, none, some, List, [], ◌∷◌, map, In, find, length, ◌==◌, arith,
}
use mcpgw.Base.Bytes.{Text, text_eq, text_eq_refl}
use mcpgw.Base.Map.{Map, get, collect, collect_onto, insert, get-insert, collect-IsSorted}
use mcpgw.Pins.{
  ToolPin, ToolFingerprint, DriftEvent, shape, Shape-discrete, same_shape, compare, seen_of, named,
  pin_of, pin_file, all_same, unchanged, carry_over, restamp,
}
use mcpgw.Pins.Sorting.{stamp}
use mcpgw.Pins.Compare.{expected, compare_iff}

pub same_shape_iff : (a b : DriftEvent) → (same_shape a b ≡ true) ↔ (shape a ≡ shape b)
unfolding same_shape
same_shape_iff a b = decided (Shape-discrete (shape a) (shape b))

same_shape_refl : (a b : DriftEvent) → shape a ≡ shape b → same_shape a b ≡ true
same_shape_refl a b h = (same_shape_iff a b).1 h

-- The shapes alone decide whether there is news.
same_shape-stamp : (t : ℕ) (a b : DriftEvent) → same_shape (stamp t a) b ≡ same_shape a b
unfolding same_shape
same_shape-stamp t a b = refl

all_same-stamp :
    (t : ℕ) (es old : List DriftEvent) → all_same (map (stamp t) es) old ≡ all_same es old
unfolding all_same same_shape
all_same-stamp t [] old = refl
all_same-stamp t (e ∷ es) [] = refl
all_same-stamp t (e ∷ es) (f ∷ old) = ap (λ b. same_shape e f && b) (all_same-stamp t es old)

length-map : {A B : Type 0} (f : A → B) (l : List A) → length (map f l) ≡ length l
length-map f [] = refl
length-map f (x ∷ l) = ap (λ n. suc n) (length-map f l)

pub unchanged-stamp :
    (t : ℕ) (es old : List DriftEvent) → unchanged (map (stamp t) es) old ≡ unchanged es old
unfolding unchanged
unchanged-stamp t es old = rw (length-map (stamp t) es, all_same-stamp t es old)

same_shape-restamp : (e : DriftEvent) (o : Option DriftEvent) → same_shape e (restamp e o) ≡ true
same_shape-restamp e none = same_shape_refl e e refl
same_shape-restamp e (some f) = same_shape_refl e (record e { at = f.at }) refl

all_same-carry_over : (old es : List DriftEvent) → all_same es (carry_over old es) ≡ true
unfolding all_same carry_over
all_same-carry_over old [] = refl
all_same-carry_over old (e ∷ es) =
    rw (same_shape-restamp e (find (λ f. same_shape f e) old), all_same-carry_over old es)

length-carry_over : (old es : List DriftEvent) → length (carry_over old es) ≡ length es
unfolding carry_over
length-carry_over old [] = refl
length-carry_over old (e ∷ es) = ap (λ n. suc n) (length-carry_over old es)

==_refl : (n : ℕ) → (n == n) ≡ true
==_refl n = ground arith

pub unchanged-carry_over : (old es : List DriftEvent) → unchanged es (carry_over old es) ≡ true
unfolding unchanged
unchanged-carry_over old es =
    rw (length-carry_over old es, all_same-carry_over old es, ==_refl (length es))

-- Freshly taken pins agree with the list they were taken from.
abbrev taken : Option ToolFingerprint → Option ToolPin
taken none = none
taken (some tool) = some (pin_of tool).1

get-pin_of :
    (n : Text) (l : List ToolFingerprint) (m : Map ToolPin) (s : Map ToolFingerprint)
    → get n m ≡ taken (get n s)
    → get n (collect_onto m (map pin_of l)) ≡ taken (get n (collect_onto s (map named l)))
unfolding collect_onto
get-pin_of n [] m s h = h
get-pin_of n (t ∷ l) m s h = get-pin_of n l (insert t.name (pin_of t).1 m) (insert t.name t s) (
    get-insert n t.name (pin_of t).1 m
    ∙ (one (text_eq t.name n) ∙ sym (ap taken (get-insert n t.name t s))))
  where
    one :
        (b : Bool)
        → (if b then some (pin_of t).1 else get n m) ≡ taken (if b then some t else get n s)
    one true = refl
    one false = h

expected-taken : (n : Text) (at : ℕ) (o : Option ToolFingerprint) → expected n at (taken o) o ≡ none
expected-taken n at none = refl
expected-taken n at (some tool) = rw (text_eq_refl tool.hash) refl

none_In : (l : List DriftEvent) → ((e : DriftEvent) → ¬ In e l) → l ≡ []
none_In [] h = refl
none_In (e ∷ l) h = elim (h e (inl refl)) [ ]

pub compare-pinned :
    (server : Text) (tools : List ToolFingerprint) (now at : ℕ)
    → compare (pin_file server tools now).tools tools at ≡ []
unfolding pin_file seen_of collect get
compare-pinned server tools now at = none_In (compare (collect (map pin_of tools)) tools at) quiet
  where
    quiet : (e : DriftEvent) → ¬ In e (compare (collect (map pin_of tools)) tools at)
    quiet e i = cc (due, sound)
      where
        due :
            expected e.tool at
              (get e.tool (collect (map pin_of tools)))
              (get e.tool (seen_of tools))
            ≡ none
        due =
            ap (λ o. expected e.tool at o (get e.tool (seen_of tools)))
              (get-pin_of e.tool tools [] [] refl)
            ∙ expected-taken e.tool at (get e.tool (seen_of tools))

        sound :
            expected e.tool at
              (get e.tool (collect (map pin_of tools)))
              (get e.tool (seen_of tools))
            ≡ some e
        sound =
            (compare_iff (collect (map pin_of tools)) tools at e
                (collect-IsSorted (map pin_of tools))).0
              i
