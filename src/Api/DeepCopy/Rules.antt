-- ===== src/Api/DeepCopy/Rules.antt =====
-- Commands that add to the memory, and what is read through references whatever happens elsewhere.
use shoot_grafter.Base.{
  ℕ, suc, ◌≤◌, ◌<◌, Option, none, some, ◌≡◌, refl, ap, subst, sym, ◌∙◌, arith, Option-cases, inl,
  inr,
}
use native.Mathlib.Decide.{dec_lt}
use shoot_grafter.Api.Memory.{
  Ptr, Imported, Cell, Memory, Cmd, Kind, pure, ◌>>=◌, allocate, load, store, copy_through,
}

pub le_refl : {n : ℕ} → n ≤ n
le_refl = omega arith

module _ {T : Imported} where
  -- What was in use is as before.
  pub record Extends (h h' : Memory T) : Type 0 where
    pub grows : h.next ≤ h'.next
    pub kept : (a : ℕ) → a < h.next → h'.cell a ≡ h.cell a

  pub Extends-refl : (h : Memory T) → Extends h h
  Extends-refl h = record { grows = ground arith; kept = λ a l. refl }

  pub Extends-trans : {h k l : Memory T} → Extends h k → Extends k l → Extends h l
  Extends-trans e f = record {
    grows = ground (arith, e.grows, f.grows);
    kept = λ a l. f.kept a (ground (arith, e.grows)) ∙ e.kept a l;
  }

  -- The memories agree at the addresses from `lo` on that are in use in the second.
  abbrev pub Same : ℕ → Memory T → Memory T → Type 0
  Same lo g h = (a : ℕ) → lo ≤ a → a < h.next → g.cell a ≡ h.cell a

  -- The value is read at `s` in every memory that agrees with this one from `lo` on.
  pub record Holds {S V : Type 0} (read : S → Memory T → Option V) (lo : ℕ) (h : Memory T) (s : S)
      (v : V) : Type 0 where
    pub at : (g : Memory T) → Same lo g h → read s g ≡ some v

  pub Holds-later :
      {S V : Type 0} {read : S → Memory T → Option V} {lo : ℕ} (lo' : ℕ) {h h' : Memory T} {s : S}
      {v : V}
      → Extends h h'
      → lo' ≤ lo
      → Holds read lo h s v
      → Holds read lo' h' s v
  Holds-later lo' e l r = record {
    at = λ g same. r.at g (λ a b c. same a (ground arith) (ground (arith, e.grows)) ∙ e.kept a c);
  }

  -- A command that succeeds from this memory.
  pub record Runs {A : Type 0} (h : Memory T) (m : Cmd T A) (P : A → Memory T → Type 0)
      : Type 0 where
    pub value : A
    pub after : Memory T
    pub runs : m h ≡ some (value, after)
    pub adds : Extends h after
    pub post : P value after

  pub Runs-pure :
      {A : Type 0} {h : Memory T} (P : A → Memory T → Type 0) (a : A) → P a h → Runs h (pure a) P
  Runs-pure {h = h} P a p = record {
    value = a;
    after = h;
    runs = refl;
    adds = Extends-refl h;
    post = p;
  }

  pub Runs-bind :
      {A B : Type 0} {h : Memory T} (P : A → Memory T → Type 0) (Q : B → Memory T → Type 0)
      (m : Cmd T A) (f : A → Cmd T B)
      → Runs h m P
      → ((a : A) (k : Memory T) → Extends h k → P a k → Runs k (f a) Q)
      → Runs h (m >>= f) Q
  Runs-bind P Q m f first next =
      let second = next first.value first.after first.adds first.post in
      record {
        value = second.value;
        after = second.after;
        runs = rw first.runs second.runs;
        adds = Extends-trans first.adds second.adds;
        post = second.post;
      }

  -- The copy reads as the original did, by new addresses alone.
  pub record Copies {S V : Type 0} (read : S → Memory T → Option V) (copy : S → Cmd T S)
      : Type 0 where
    pub at :
        (h : Memory T) (s : S) (v : V)
        → Holds read 0 h s v
        → Runs h (copy s) (λ s' h'. Holds read h.next h' s' v)

  -- A part of a struct that is copied from the memory `h`, after other parts.
  pub Runs-copy_here :
      {S V B : Type 0} {read : S → Memory T → Option V} {h k : Memory T} {s : S} {v : V}
      (Q : B → Memory T → Type 0) (m : Cmd T S) (f : S → Cmd T B)
      → ((l : Memory T) → Holds read 0 l s v → Runs l m (λ s' l'. Holds read l.next l' s' v))
      → Extends h k
      → Holds read 0 h s v
      → ((s' : S) (k' : Memory T)
          → Extends h k'
          → Extends k k'
          → Holds read h.next k' s' v
          → Runs k' (f s') Q)
      → Runs k (m >>= f) Q
  Runs-copy_here {read = read} {h} {k} {s} {v} Q m f copies e r next =
      Runs-bind (λ s' k'. Holds read k.next k' s' v) Q m f
        (copies k (Holds-later 0 e (ground arith) r))
        (λ s' k' e' r'.
          next s' k' (Extends-trans e e') e' (Holds-later h.next (Extends-refl k') e.grows r'))

  pub Runs-copy :
      {S V B : Type 0} {read : S → Memory T → Option V} {copy : S → Cmd T S} {h k : Memory T}
      {s : S} {v : V} (Q : B → Memory T → Type 0) (f : S → Cmd T B)
      → Copies read copy
      → Extends h k
      → Holds read 0 h s v
      → ((s' : S) (k' : Memory T)
          → Extends h k'
          → Extends k k'
          → Holds read h.next k' s' v
          → Runs k' (f s') Q)
      → Runs k (copy s >>= f) Q
  Runs-copy {copy = copy} {s = s} {v} Q f copies =
      Runs-copy_here Q (copy s) f (λ l r. copies.at l s v r)

  pub record IsKind {S : Type 0} (K : Kind T S) : Type 0 where
    pub get-put : (s : S) → K.get (some (K.put s)) ≡ some s
    pub get-none : K.get none ≡ none

  -- What a pointer refers to.
  abbrev pub through :
      {S V : Type 0} → (S → Memory T → Option V) → Memory T → Option S → Option (Option V)
  through read g none = none
  through read g (some s) = elim (read s g) [ none ↦ none | some v ↦ some (some v) ]

  unfoldable pub read_through :
      {S V : Type 0} → Kind T S → (S → Memory T → Option V) → Ptr → Memory T → Option (Option V)
  read_through K read none g = some none
  read_through K read (some p) g = through read g (K.get (g.cell p))

  allocate-Extends :
      (c : Cell T) (h : Memory T)
      → Extends h (record (store T h.next (some c) h) { next = suc h.next })
  unfolding store
  allocate-Extends c h = record { grows = ground arith; kept = λ a l. ground arith }

  -- An address that is read is in use.
  read-in_use :
      {S V : Type 0} {K : Kind T S} (L : IsKind K) (read : S → Memory T → Option V) (h : Memory T)
      (p : ℕ) (v : Option V)
      → Holds (read_through K read) 0 h (some p) v
      → p < h.next
  unfolding read_through store
  read-in_use {K = K} L read h p v r = elim (dec_lt p h.next) [
    | yes l ↦ l
    | no n ↦
        let g = store T p none h in
        let e : g.cell p ≡ none = ground arith in
        let seen : through read g (K.get (g.cell p)) ≡ some v = r.at g (λ a _ b. ground arith) in
        let gone : through read g none ≡ some v =
          subst (λ o. through read g o ≡ some v) (ap K.get e ∙ L.get-none) seen in
        ground arith
  ]

  through-some :
      {S V : Type 0} (read : S → Memory T → Option V) (g : Memory T) (o : Option S) (v : Option V)
      → through read g o ≡ some v
      → (s : S) × (w : V) × (o ≡ some s) × (v ≡ some w) × (read s g ≡ some w)
  through-some read g none v e = ground arith
  through-some read g (some s) v e = elim (Option-cases (read s g)) [
    | inl n ↦ ground arith
    | inr (w, f) ↦ (s, w, refl, ground arith, f)
  ]

  -- What a pointer that reads refers to.
  record Target {S V : Type 0} (K : Kind T S) (read : S → Memory T → Option V) (h : Memory T)
      (p : ℕ) (v : Option V) : Type 0 where
    pub struct : S
    pub value : V
    pub there : K.get (h.cell p) ≡ some struct
    pub is_value : v ≡ some value
    pub holds : Holds read 0 h struct value

  target :
      {S V : Type 0} (K : Kind T S) (L : IsKind K) (read : S → Memory T → Option V) (h : Memory T)
      (p : ℕ) (v : Option V)
      → Holds (read_through K read) 0 h (some p) v
      → Target K read h p v
  unfolding read_through
  target K L read h p v r =
      let used = read-in_use L read h p v r in
      let (s, w, e, f, _) = through-some read h (K.get (h.cell p)) v (r.at h (λ a b c. refl)) in
      record {
        struct = s;
        value = w;
        there = e;
        is_value = f;
        holds = record {
          at = λ g same.
              let (s', w', e', f', look) = through-some read g (K.get (g.cell p)) v (r.at g same) in
              let at_p : g.cell p ≡ h.cell p = same p (ground arith) used in
              let one : s' ≡ s = ground arith in
              let two : w' ≡ w = ground arith in rw (← one) (rw (← two) look);
        };
      }

  module _ {S V : Type 0} (K : Kind T S) (L : IsKind K) (read : S → Memory T → Option V)
      (into : S → Cmd T S) (copies : Copies read into) where
    -- The new address refers to the struct that was copied.
    allocated-Holds :
        (lo : ℕ) (h : Memory T) (s : S) (v : V)
        → lo ≤ h.next
        → Holds read lo h s v
        → Holds
            (read_through K read)
            lo
            (record (store T h.next (some (K.put s)) h) { next = suc h.next })
            (some h.next)
            (some v)
    unfolding read_through store
    allocated-Holds lo h s v l r = record {
      at = λ g same.
          let here : g.cell h.next ≡ some (K.put s) = ground (arith, same h.next l) in
          let look : read s g ≡ some v = r.at g (λ a b c. same a b (ground arith) ∙ ground arith) in
          let get : K.get (g.cell h.next) ≡ some s = ap K.get here ∙ L.get-put s in
          rw get (rw (look, through) refl);
    }

    copied_through :
        (h : Memory T) (p : Ptr) (v : Option V)
        → Holds (read_through K read) 0 h p v
        → Runs h (copy_through K into p) (λ p' h'. Holds (read_through K read) h.next h' p' v)
    unfolding copy_through load allocate read_through
    copied_through h none v r = Runs-pure _ none (record { at = λ g same. r.at h (λ a b c. refl) })
    copied_through h (some p) v r =
        let t = target K L read h p v r in
        let c = copies.at h t.struct t.value t.holds in
        let k = c.after in
        record {
          value = some k.next;
          after = record (store T k.next (some (K.put c.value)) k) { next = suc k.next };
          runs = ground (arith, t.there, c.runs);
          adds = Extends-trans c.adds (allocate-Extends (K.put c.value) k);
          post =
              subst (Holds (read_through K read) h.next _ (some k.next)) (sym t.is_value)
                (allocated-Holds h.next k c.value t.value c.adds.grows c.post);
        }

    -- A copy through a pointer, given how the struct is copied.
    pub Copies-through : Copies (read_through K read) (copy_through K into)
    Copies-through = record { at = copied_through }
