-- ===== src/Json/Fuel.antt =====
-- The fuel of Json/Parser is enough: a value takes at most two units for each byte, and one.
use absolute.Prelude.{ℕ, zero, suc, ◌+◌, ◌*◌, ◌≤◌, List, [], ◌∷◌, Result, arith, length}
use absolute.Json.Text.{JsonError, skip_whitespace, parse_string}
use absolute.Json.Numbers.{Floats}
use absolute.Json.Tree.{Value, Values, Fields, end, insert}
use absolute.Json.Parser.{
  parse_key, parse_value, parse_elements, parse_members, parse_array, parse_object, parse_from,
  parse_at, after_element, after_member, start_of, next_of, Next, closed, more, neither, Start,
  at_null, at_bool, at_string, at_array, at_object, at_number, at_other,
}
use absolute.Json.Progress.{
  Ends, bind-Ends, skip_whitespace-le, Ends-more, parse_string-Ends, parse_key-Ends,
  parse_null-Ends, parse_bool-Ends, parse_number-Ends, Behind, next_of-Behind,
}

module _ (floats : Floats) where
  open floats use {Double}

  -- A loop that ends on every text shorter than `n` bytes, or as long.
  abbrev EndsBelow : {A : Type 0} → ℕ → (List ℕ → Result JsonError (A × List ℕ)) → Type 0
  EndsBelow n loop = (s : List ℕ) → length s ≤ n → Ends (length s) (loop s)

  parse_array-Ends :
      (loop : List ℕ → Result JsonError (Values Double × List ℕ)) (x : Next) (s : List ℕ)
      → Behind (length s) x
      → Ends (length s) (loop s)
      → Ends (length s) (parse_array floats loop x s)
  unfolding parse_array
  parse_array-Ends loop (closed rest) s b h = omega arith
  parse_array-Ends loop (more rest) s b h =
      bind-Ends (length s) (length s) (loop s) _ h (λ p below. below)
  parse_array-Ends loop neither s b h =
      bind-Ends (length s) (length s) (loop s) _ h (λ p below. below)

  parse_object-Ends :
      (loop : List ℕ → Result JsonError (Fields Double × List ℕ)) (x : Next) (s : List ℕ)
      → Behind (length s) x
      → Ends (length s) (loop s)
      → Ends (length s) (parse_object floats loop x s)
  unfolding parse_object
  parse_object-Ends loop (closed rest) s b h = omega arith
  parse_object-Ends loop (more rest) s b h =
      bind-Ends (length s) (length s) (loop s) _ h (λ p below. below)
  parse_object-Ends loop neither s b h =
      bind-Ends (length s) (length s) (loop s) _ h (λ p below. below)

  parse_from-Ends :
      (elements : List ℕ → Result JsonError (Values Double × List ℕ))
      (members : List ℕ → Result JsonError (Fields Double × List ℕ)) (x : Start) (c : ℕ)
      (cs : List ℕ)
      → EndsBelow (length cs) elements
      → EndsBelow (length cs) members
      → Ends (suc (length cs)) (parse_from floats elements members x c cs)
  unfolding parse_from
  parse_from-Ends elements members at_null c cs p q = parse_null-Ends Double (c ∷ cs)
  parse_from-Ends elements members at_bool c cs p q = parse_bool-Ends Double (c ∷ cs)
  parse_from-Ends elements members at_string c cs p q =
      bind-Ends (length cs) (suc (length cs)) (parse_string zero cs) _ (parse_string-Ends zero cs)
        (λ r below. omega (arith, below))
  parse_from-Ends elements members at_array c cs p q =
      let t = skip_whitespace cs in
      Ends-more (length t) _ (parse_array floats elements (next_of b']' t) t)
        (omega (arith, skip_whitespace-le cs))
        (parse_array-Ends elements (next_of b']' t) t (next_of-Behind b']' t)
          (p t (skip_whitespace-le cs)))
  parse_from-Ends elements members at_object c cs p q =
      let t = skip_whitespace cs in
      Ends-more (length t) _ (parse_object floats members (next_of b'}' t) t)
        (omega (arith, skip_whitespace-le cs))
        (parse_object-Ends members (next_of b'}' t) t (next_of-Behind b'}' t)
          (q t (skip_whitespace-le cs)))
  parse_from-Ends elements members at_number c cs p q = parse_number-Ends floats (c ∷ cs)
  parse_from-Ends elements members at_other c cs p q = λ same. cc

  after_element-Ends :
      (loop : List ℕ → Result JsonError (Values Double × List ℕ)) (v : Value Double) (n : ℕ)
      (x : Next)
      → Behind (suc n) x
      → EndsBelow n loop
      → Ends n (after_element floats loop v x)
  unfolding after_element
  after_element-Ends loop v n (closed rest) b h = omega (arith, b)
  after_element-Ends loop v n (more rest) b h =
      bind-Ends (length rest) n (loop rest) _ (h rest (omega (arith, b)))
        (λ q below. omega (arith, b, below))
  after_element-Ends loop v n neither b h = λ same. cc

  after_member-Ends :
      (loop : Fields Double → List ℕ → Result JsonError (Fields Double × List ℕ))
      (read : Fields Double) (n : ℕ) (x : Next)
      → Behind (suc n) x
      → EndsBelow n (loop read)
      → Ends n (after_member floats loop read x)
  unfolding after_member
  after_member-Ends loop read n (closed rest) b h = omega (arith, b)
  after_member-Ends loop read n (more rest) b h =
      Ends-more (length rest) n (loop read rest) (omega (arith, b)) (h rest (omega (arith, b)))
  after_member-Ends loop read n neither b h = λ same. cc

  Behind-more : (m n : ℕ) (x : Next) → m ≤ n → Behind m x → Behind n x
  Behind-more m n (closed t) h b = omega arith
  Behind-more m n (more t) h b = omega arith
  Behind-more m n neither h b = tt

  next-Behind :
      (close n : ℕ) (s : List ℕ) → length s ≤ n → Behind n (next_of close (skip_whitespace s))
  next-Behind close n s h =
      let t = skip_whitespace s in
      Behind-more (length t) n (next_of close t) (omega (arith, skip_whitespace-le s, h))
        (next_of-Behind close t)

  parse_at-Ends :
      (elements : List ℕ → Result JsonError (Values Double × List ℕ))
      (members : List ℕ → Result JsonError (Fields Double × List ℕ)) (n : ℕ) (s : List ℕ)
      → length s ≤ n
      → ((k : ℕ) → suc k ≤ n → EndsBelow k elements)
      → ((k : ℕ) → suc k ≤ n → EndsBelow k members)
      → Ends n (parse_at floats elements members s)
  unfolding parse_at
  parse_at-Ends elements members n [] h p q = λ same. cc
  parse_at-Ends elements members n (c ∷ cs) h p q =
      Ends-more (suc (length cs)) n (parse_from floats elements members (start_of c) c cs) h
        (parse_from-Ends elements members (start_of c) c cs (p (length cs) h) (q (length cs) h))

  mutual
    unfolding parse_value

    pub parse_value-Ends :
        (fuel : ℕ) (s : List ℕ)
        → 2 * length s + 1 ≤ fuel
        → Ends (length s) (parse_value floats fuel s)
    parse_value-Ends zero s h = ground arith
    parse_value-Ends (suc fuel) s h =
        parse_at-Ends (parse_elements floats fuel) (parse_members floats fuel end) (length s)
          (skip_whitespace s) (skip_whitespace-le s)
          (λ k below t shorter. parse_elements-Ends fuel t (omega arith))
          (λ k below t shorter. parse_members-Ends fuel end t (omega arith))

    parse_elements-Ends :
        (fuel : ℕ) (s : List ℕ)
        → 2 * length s + 2 ≤ fuel
        → Ends (length s) (parse_elements floats fuel s)
    parse_elements-Ends zero s h = ground arith
    parse_elements-Ends (suc fuel) [] h = λ same. cc
    parse_elements-Ends (suc fuel) (c ∷ cs) h =
        bind-Ends (suc (length cs)) (suc (length cs)) (parse_value floats fuel (c ∷ cs)) _
          (parse_value-Ends fuel (c ∷ cs) (omega arith))
          (λ r below.
            let x = next_of b']' (skip_whitespace r.1) in
            Ends-more (length cs) _ (after_element floats (parse_elements floats fuel) r.0 x)
              (omega arith)
              (after_element-Ends (parse_elements floats fuel) r.0 (length cs) x
                (next-Behind b']' _ r.1 below)
                (λ t shorter. parse_elements-Ends fuel t (omega arith))))

    parse_members-Ends :
        (fuel : ℕ) (read : Fields Double) (s : List ℕ)
        → 2 * length s + 2 ≤ fuel
        → Ends (length s) (parse_members floats fuel read s)
    parse_members-Ends zero read s h = ground arith
    parse_members-Ends (suc fuel) read [] h = λ same. cc
    parse_members-Ends (suc fuel) read (c ∷ cs) h =
        bind-Ends (suc (length cs)) (suc (length cs)) (parse_key (c ∷ cs)) _
          (parse_key-Ends (c ∷ cs))
          (λ k shorter.
            bind-Ends (suc (length cs)) (suc (length cs)) (parse_value floats fuel k.1) _
              (Ends-more (length k.1) _ (parse_value floats fuel k.1) shorter
                (parse_value-Ends fuel k.1 (omega arith)))
              (λ r below.
                let x = next_of b'}' (skip_whitespace r.1) in
                Ends-more (length cs) _
                  (after_member floats (parse_members floats fuel) (insert k.0 r.0 read) x)
                  (omega arith)
                  (after_member-Ends (parse_members floats fuel) (insert k.0 r.0 read) (length cs) x
                    (next-Behind b'}' _ r.1 below)
                    (λ t shorter'. parse_members-Ends fuel (insert k.0 r.0 read) t (omega arith)))))
