-- ===== src/Syslog/Elements.antt =====
-- Structured data, printed and read.
use aiguard_siem.Common.{
  ℕ, zero, suc, ◌+◌, ◌≤◌, ◌≡◌, ◌≢◌, refl, ap, ◌∙◌, some, List, [], ◌∷◌, ◌++◌, Text, length,
  length-append, drop, find_char, find_char-append, Every, arith, take-length-append,
}
use aiguard_siem.Memtable.Table.{assign}
use aiguard_siem.Syslog.Structured.{
  Parameters, Param, next_param, params_from, element_into, elements_from, parse_structured_data,
}

-- An element as RFC 5424 writes it, with a parameter at least and nothing to escape.
pub record Element : Type 0 where
  pub id : Text
  pub first : Text × Text
  pub more : Parameters

abbrev pub render_param : Text × Text → Text → Text
render_param p rest = p.0 ++ (b'=' ∷ (b'"' ∷ (p.1 ++ (b'"' ∷ rest))))

abbrev pub render_more : Parameters → Text
render_more [] = []
render_more (p ∷ ps) = b' ' ∷ render_param p (render_more ps)

abbrev pub render_element : Element → Text
render_element e = e.id ++ (b' ' ∷ render_param e.first (render_more e.more))

abbrev pub render_elements : List Element → Text
render_elements [] = []
render_elements (e ∷ es) = b'[' ∷ (render_element e ++ (b']' ∷ render_elements es))

abbrev pub put_params : Text → Parameters → Parameters → Parameters
put_params id [] m = m
put_params id (p ∷ ps) m = put_params id ps (assign (id ++ (b'.' ∷ p.0)) p.1 m)

abbrev pub put_elements : List Element → Parameters → Parameters
put_elements [] m = m
put_elements (e ∷ es) m = put_elements es (put_params e.id (e.first ∷ e.more) m)

abbrev pub Without : ℕ → Text → Type 0
Without c s = Every (λ d. d ≢ c) s

-- Keys without an equals sign, values without a quote, and no closing bracket.
abbrev pub IsParam : Text × Text → Type 0
IsParam p = Without b'=' p.0 × (Without b'"' p.1 × (Without b']' p.0 × Without b']' p.1))

abbrev pub IsElement : Element → Type 0
IsElement e = Without b' ' e.id × (Without b']' e.id × (IsParam e.first × Every IsParam e.more))

drop-past : (s : Text) (c : ℕ) (rest : Text) → drop (suc (length s)) (s ++ (c ∷ rest)) ≡ rest
drop-past [] c rest = refl
drop-past (d ∷ s) c rest = drop-past s c rest

drop-past_two :
    (s : Text) (c : ℕ) (rest : Text) → drop (length s + 2) (s ++ (c ∷ rest)) ≡ drop 1 rest
drop-past_two [] c rest = refl
drop-past_two (d ∷ s) c rest =
    let e : suc (length s) + 2 ≡ suc (length s + 2) = omega arith in
    ap (λ k. drop k ((d ∷ s) ++ (c ∷ rest))) e ∙ drop-past_two s c rest

next_param-render :
    (p : Text × Text) (rest : Text)
    → IsParam p
    → next_param (render_param p rest)
      ≡ some (record { key = p.0; value = p.1; left = drop 1 rest })
unfolding next_param
next_param-render p rest h =
    let tail : Text = b'"' ∷ (p.1 ++ (b'"' ∷ rest)) in
    rw
      (
        find_char-append b'=' p.0 tail h.0,
        take-length-append p.0 (b'=' ∷ tail),
        drop-past p.0 b'=' tail,
        find_char-append b'"' p.1 rest h.1.0,
        take-length-append p.1 (b'"' ∷ rest),
        drop-past_two p.1 b'"' rest,
      )
      refl

-- A text with a character in it is not at its end.
params_from-step :
    (fuel : ℕ) (id k : Text) (c : ℕ) (rest : Text) (m : Parameters) (p : Param)
    → next_param (k ++ (c ∷ rest)) ≡ some p
    → params_from (suc fuel) id (k ++ (c ∷ rest)) m
      ≡ params_from fuel id p.left (assign (id ++ (b'.' ∷ p.key)) p.value m)
unfolding params_from
params_from-step fuel id [] c rest m p h = rw (params_from, h) refl
params_from-step fuel id (d ∷ k) c rest m p h = rw (params_from, h) refl

params_from-nil : (fuel : ℕ) (id : Text) (m : Parameters) → params_from fuel id [] m ≡ m
unfolding params_from
params_from-nil zero id m = refl
params_from-nil (suc fuel) id m = refl

params_from-render :
    (fuel : ℕ) (id : Text) (p : Text × Text) (ps m : Parameters)
    → length (p ∷ ps) ≤ fuel
    → IsParam p
    → Every IsParam ps
    → params_from fuel id (render_param p (render_more ps)) m ≡ put_params id (p ∷ ps) m
params_from-render zero id p ps m l h hs = absurd (omega (arith, l))
params_from-render (suc fuel) id p [] m l h hs =
    params_from-step fuel id p.0 b'=' _ m _ (next_param-render p [] h) ∙ params_from-nil fuel id _
params_from-render (suc fuel) id p (q ∷ ps) m l h hs =
    params_from-step fuel id p.0 b'=' _ m _ (next_param-render p (render_more (q ∷ ps)) h)
    ∙ params_from-render fuel id q ps _ (omega (arith, l)) hs.0 hs.1

length-render_param :
    (p : Text × Text) (ps : Parameters) → length (p ∷ ps) ≤ length (render_param p (render_more ps))
length-render_param p [] =
    omega (
      arith,
      length-append p.0 (b'=' ∷ (b'"' ∷ (p.1 ++ (b'"' ∷ [])))),
      length-append p.1 (b'"' ∷ []),
    )
length-render_param p (q ∷ ps) =
    let rest : Text = render_more (q ∷ ps) in
    omega (
      arith,
      length-append p.0 (b'=' ∷ (b'"' ∷ (p.1 ++ (b'"' ∷ rest)))),
      length-append p.1 (b'"' ∷ rest),
      length-render_param q ps,
    )

append-Without : (c : ℕ) (s t : Text) → Without c s → Without c t → Without c (s ++ t)
append-Without c [] t h g = g
append-Without c (d ∷ s) t h g = (h.0, append-Without c s t h.1 g)

render_param-Without :
    (p : Text × Text) (rest : Text)
    → IsParam p
    → Without b']' rest
    → Without b']' (render_param p rest)
render_param-Without p rest h g = append-Without b']' p.0 _ h.1.1.0 (
  λ e. absurd (omega (arith, e)),
  (
    λ e. absurd (omega (arith, e)),
    append-Without b']' p.1 (b'"' ∷ rest) h.1.1.1 (λ e. absurd (omega (arith, e)), g),
  ),
)

render_more-Without : (ps : Parameters) → Every IsParam ps → Without b']' (render_more ps)
render_more-Without [] h = tt
render_more-Without (p ∷ ps) h = (
  λ e. absurd (omega (arith, e)),
  render_param-Without p (render_more ps) h.0 (render_more-Without ps h.1),
)

render_element-Without : (e : Element) → IsElement e → Without b']' (render_element e)
render_element-Without e h = append-Without b']' e.id _ h.1.0 (
  λ k. absurd (omega (arith, k)),
  render_param-Without e.first (render_more e.more) h.1.1.0 (render_more-Without e.more h.1.1.1),
)

element_into-render :
    (e : Element) (m : Parameters)
    → IsElement e
    → element_into (render_element e) (find_char b' ' (render_element e)) m
      ≡ put_params e.id (e.first ∷ e.more) m
unfolding element_into
element_into-render e m h =
    let params : Text = render_param e.first (render_more e.more) in
    rw
      (
        find_char-append b' ' e.id params h.0,
        take-length-append e.id (b' ' ∷ params),
        drop-past e.id b' ' params,
      )
      (params_from-render (length params) e.id e.first e.more m (length-render_param e.first e.more)
        h.1.1.0 h.1.1.1)

elements_from-render :
    (fuel : ℕ) (es : List Element) (m : Parameters)
    → length es ≤ fuel
    → Every IsElement es
    → elements_from fuel (render_elements es) m ≡ put_elements es m
unfolding elements_from
elements_from-render zero [] m l h = refl
elements_from-render (suc fuel) [] m l h = refl
elements_from-render zero (e ∷ es) m l h = absurd (omega (arith, l))
elements_from-render (suc fuel) (e ∷ es) m l h =
    let inner : Text = render_element e in
    let rest : Text = render_elements es in
    rw
      (
        elements_from,
        find_char-append b']' inner rest (render_element-Without e h.0),
        take-length-append inner (b']' ∷ rest),
        drop-past inner b']' rest,
        element_into-render e m h.0,
      )
      (elements_from-render fuel es _ (omega (arith, l)) h.1)

length-render_elements : (es : List Element) → length es ≤ length (render_elements es)
length-render_elements [] = omega arith
length-render_elements (e ∷ es) =
    omega (
      arith,
      length-append (render_element e) (b']' ∷ render_elements es),
      length-render_elements es,
    )

-- Structured data printed from elements with a parameter at least, whose names and values need no
-- escapes, is read back: each value stands under its element's name and its key, the last one of
-- those with the same names, and the loops run to the end of the text.
pub parse_structured_data-render :
    (es : List Element)
    → Every IsElement es
    → parse_structured_data (render_elements es) ≡ put_elements es []
unfolding parse_structured_data
parse_structured_data-render es h =
    elements_from-render (length (render_elements es)) es [] (length-render_elements es) h
