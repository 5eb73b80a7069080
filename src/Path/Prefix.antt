-- ===== src/Path/Prefix.antt =====
-- What the routing clamp takes for a path under its prefix (`path_matches_prefix` of
-- rust-grates/fs-routing-clamp/src/helpers.rs).
use lind_wasm_example_grates.Path.Components.Laws.{Plain, reverse-All, pieces}
use mathlib.Core.Path.{ap₂}
use mathlib.Core.List.{append_assoc, reverse-append, reverse-cons, reverse-reverse, append-nil}
use lind_wasm_example_grates.Base.{
  ◌≡◌, refl, ap, sym, ◌∙◌, ◌≢◌, true, false, List, [], ◌∷◌, ◌++◌, reverse, arith, All, ◌↔◌,
}
use lind_wasm_example_grates.Path.Text.{Text, slash, join, starts_with, starts_with-append, NoSlash}
use lind_wasm_example_grates.Path.Components.{absolute}
use lind_wasm_example_grates.FsClamp.Paths.{path_matches_prefix}

starts_with-append_both : (p s q : Text) → starts_with (p ++ s) (p ++ q) ≡ starts_with s q
unfolding starts_with
starts_with-append_both [] s q = refl
starts_with-append_both (c ∷ p) s q = ground (arith, starts_with-append_both p s q)

starts_with_nil : (s : Text) → starts_with s [] ≡ true
unfolding starts_with
starts_with_nil [] = refl
starts_with_nil (c ∷ s) = refl

starts_with_self : (s : Text) → starts_with s s ≡ true
unfolding starts_with
starts_with_self [] = refl
starts_with_self (c ∷ s) = ground (arith, starts_with_self s)

starts_with-join : (ws vs : List Text) → starts_with (join (ws ++ vs)) (join ws) ≡ true
unfolding join
starts_with-join [] vs = starts_with_nil (join vs)
starts_with-join (w ∷ []) [] = starts_with_self w
starts_with-join (w ∷ []) (v ∷ vs) = starts_with-append w (slash ∷ join (v ∷ vs))
starts_with-join (w ∷ u ∷ ws) vs =
    starts_with-append_both w (slash ∷ join (u ∷ ws ++ vs)) (slash ∷ join (u ∷ ws))
    ∙ starts_with-append_both (slash ∷ []) (join (u ∷ ws ++ vs)) (join (u ∷ ws))
    ∙ starts_with-join (u ∷ ws) vs

-- A normal path at or below the prefix, component by component, matches the prefix.
path_matches_prefix_below :
    (st below : List Text) → path_matches_prefix (absolute st) (absolute (below ++ st)) ≡ true
unfolding path_matches_prefix absolute
path_matches_prefix_below st below =
    rw (reverse-append below st)
      (starts_with-append_both (slash ∷ []) _ _ ∙ starts_with-join (reverse st) (reverse below))

join_longer : (ws : List Text) (w v : Text) → join (ws ++ (w ++ v) ∷ []) ≡ join (ws ++ w ∷ []) ++ v
unfolding join
join_longer [] w v = refl
join_longer (u ∷ []) w v = sym (append_assoc u (slash ∷ w) v)
join_longer (u ∷ x ∷ ws) w v =
    ap (λ t. u ++ slash ∷ t) (join_longer (x ∷ ws) w v) ∙ sym (append_assoc u _ v)

-- A sibling of the prefix whose name begins with the last component of the prefix matches it too.
path_matches_prefix_sibling :
    (st : List Text) (w v : Text)
    → path_matches_prefix (absolute (w ∷ st)) (absolute ((w ++ v) ∷ st)) ≡ true
unfolding path_matches_prefix absolute
path_matches_prefix_sibling st w v =
    rw (reverse-cons w st, reverse-cons (w ++ v) st, join_longer (reverse st) w v)
      (starts_with-append (slash ∷ join (reverse st ++ w ∷ [])) v)

starts_with_trans :
    (s t u : Text) → starts_with s t ≡ true → starts_with t u ≡ true → starts_with s u ≡ true
unfolding starts_with
starts_with_trans s t [] h k = refl
starts_with_trans s [] (u ∷ us) h k = absurd (ground arith)
starts_with_trans [] (t ∷ ts) (u ∷ us) h k = absurd (ground arith)
starts_with_trans (s ∷ ss) (t ∷ ts) (u ∷ us) h k = ground (arith, starts_with_trans ss ts us)

-- What may stand behind a component in a path.
abbrev Tail : Text → Type 0
Tail [] = Unit
Tail (c ∷ t) = c ≡ slash

-- A text with no slash that begins a path begins its first component.
first_component :
    (x t w : Text) → Tail t → NoSlash w → starts_with (x ++ t) w ≡ true → (v : Text) × (x ≡ w ++ v)
unfolding starts_with
first_component x t [] tail plain h = (x, refl)
first_component [] [] (c ∷ w) tail plain h = absurd (ground arith)
first_component [] (d ∷ t) (c ∷ w) tail plain h = absurd (ground (arith, plain.0))
first_component (d ∷ x) t (c ∷ w) tail plain h =
    let (v, e) = first_component x t w tail plain.1 (ground arith) in (v, ground (arith, e))

-- A text with no slash does not begin with one that has a slash.
NoSlash-within : (x u t : Text) → NoSlash x → starts_with x (u ++ slash ∷ t) ≡ false
unfolding starts_with
NoSlash-within [] [] t h = refl
NoSlash-within [] (c ∷ u) t h = refl
NoSlash-within (d ∷ x) [] t h = ground (arith, h.0)
NoSlash-within (d ∷ x) (c ∷ u) t h = ground (arith, NoSlash-within x u t h.1)

-- Both first components are the same, and the rest begins with the rest.
same_component :
    (x u s t : Text)
    → NoSlash x
    → NoSlash u
    → starts_with (x ++ slash ∷ s) (u ++ slash ∷ t) ≡ true
    → (x ≡ u) × (starts_with s t ≡ true)
unfolding starts_with
same_component [] [] s t hx hu h = (refl, ground arith)
same_component [] (c ∷ u) s t hx hu h = absurd (ground (arith, hu.0))
same_component (d ∷ x) [] s t hx hu h = absurd (ground (arith, hx.0))
same_component (d ∷ x) (c ∷ u) s t hx hu h =
    let (e, rest) = same_component x u s t hx.1 hu.1 (ground arith) in (ground (arith, e), rest)

join-cons :
    (u : Text) (us : List Text) (w : Text)
    → join (u ∷ us ++ w ∷ []) ≡ u ++ slash ∷ join (us ++ w ∷ [])
unfolding join
join-cons u [] w = refl
join-cons u (x ∷ us) w = refl

join-Tail : (vs : List Text) → (t : Text) × Tail t × ((x : Text) → join (x ∷ vs) ≡ x ++ t)
unfolding join
join-Tail [] = ([], tt, λ x. sym (append-nil x))
join-Tail (v ∷ vs) = (slash ∷ join (v ∷ vs), refl, λ x. refl)

nil_starts : (w : Text) → starts_with [] w ≡ true → w ≡ []
unfolding starts_with
nil_starts [] h = refl
nil_starts (c ∷ w) h = absurd (ground arith)

-- A path of one component, or of none, does not begin with two.
one_component :
    (x u : Text) (us : List Text) (w : Text)
    → NoSlash x
    → starts_with x (join (u ∷ us ++ w ∷ [])) ≡ false
one_component x u us w h =
    ap (starts_with x) (join-cons u us w) ∙ NoSlash-within x u (join (us ++ w ∷ [])) h

-- A path begins with the components of the prefix but the last, and then a component that begins
-- with the last one.
join_starts :
    (us : List Text) (w : Text) (vs : List Text)
    → All NoSlash us
    → NoSlash w
    → w ≢ []
    → All NoSlash vs
    → starts_with (join vs) (join (us ++ w ∷ [])) ≡ true
    → (v : Text) × (inside : List Text) × (vs ≡ us ++ (w ++ v) ∷ inside)
unfolding join
join_starts [] w [] hu hw ne hv h = absurd (ne (nil_starts w (h)))
join_starts [] w (x ∷ vs) hu hw ne hv h =
    let (t, tail, e) = join-Tail vs in
    let (v, same) = first_component x t w tail hw (sym (ap (λ s. starts_with s w) (e x)) ∙ h) in
    (v, vs, ap (λ y. y ∷ vs) same)
join_starts (u ∷ us) w [] hu hw ne hv h = absurd (ground (arith, one_component [] u us w tt, h))
join_starts (u ∷ us) w (x ∷ []) hu hw ne hv h =
    absurd (ground (arith, one_component x u us w hv.0, h))
join_starts (u ∷ us) w (x ∷ y ∷ vs) hu hw ne hv h =
    let (same, rest) =
      same_component x u (join (y ∷ vs)) (join (us ++ w ∷ [])) hv.0 hu.0
        (sym (ap (starts_with (x ++ slash ∷ join (y ∷ vs))) (join-cons u us w)) ∙ h) in
    let (v, inside, e) = join_starts us w (y ∷ vs) hu.1 hw ne hv.1 rest in
    (v, inside, ap₂ (◌∷◌) same e)

reverse_around :
    (us : List Text) (x : Text) (vs path : List Text)
    → reverse path ≡ reverse us ++ x ∷ vs
    → path ≡ reverse vs ++ x ∷ us
reverse_around us x vs path e =
    sym (reverse-reverse path)
    ∙ ap reverse e
    ∙ reverse-append (reverse us) (x ∷ vs)
    ∙ ap (λ l. reverse (x ∷ vs) ++ l) (reverse-reverse us)
    ∙ ap (λ l. l ++ us) (reverse-cons x vs)
    ∙ append_assoc (reverse vs) (x ∷ []) us

matches_starts :
    (w : Text) (st path : List Text)
    → path_matches_prefix (absolute (w ∷ st)) (absolute path)
      ≡ starts_with (join (reverse path)) (join (reverse st ++ w ∷ []))
unfolding path_matches_prefix absolute
matches_starts w st path =
    starts_with-append_both (slash ∷ []) (join (reverse path)) (join (reverse (w ∷ st)))
    ∙ ap (λ l. starts_with (join (reverse path)) (join l)) (reverse-cons w st)

extended_matches :
    (w : Text) (st inside : List Text) (v : Text)
    → path_matches_prefix (absolute (w ∷ st)) (absolute (inside ++ (w ++ v) ∷ st)) ≡ true
extended_matches w st inside v =
    let below = path_matches_prefix_below ((w ++ v) ∷ st) inside in
    let sibling = path_matches_prefix_sibling st w v in
    unfold path_matches_prefix in
    starts_with_trans (absolute (inside ++ (w ++ v) ∷ st)) (absolute ((w ++ v) ∷ st))
      (absolute (w ∷ st)) below sibling

-- For a prefix in normal form, other than the root, and a path in normal form, both of plain
-- components, the path matches exactly when it consists of the components of the prefix but the
-- last, then one that begins with the last component of the prefix, then any others.
pub path_matches_prefix_iff :
    (w : Text) (st path : List Text)
    → All Plain (w ∷ st)
    → All Plain path
    → (path_matches_prefix (absolute (w ∷ st)) (absolute path) ≡ true)
      ↔ ((inside : List Text) × (v : Text) × (path ≡ inside ++ (w ++ v) ∷ st))
path_matches_prefix_iff w st path hp hq = (
  λ h.
      let (v, rest, e) =
        join_starts (reverse st) w (reverse path) (reverse-All NoSlash st (pieces st hp.1))
          hp.0.piece hp.0.nonempty (reverse-All NoSlash path (pieces path hq))
          (sym (matches_starts w st path) ∙ h) in
      (reverse rest, v, reverse_around st (w ++ v) rest path e),
  λ (inside, v, e). rw e (extended_matches w st inside v),
)
