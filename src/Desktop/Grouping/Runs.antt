-- ===== src/Desktop/Grouping/Runs.antt =====
-- What the rolled-up list holds.
use qsl.Prelude.{
  ◌≡◌, ◌≤◌, refl, ap, sym, ◌∙◌, arith, true, false, List, [], ◌∷◌, ◌++◌, append-nil, append_assoc,
  Option, none, some, eq_text_iff, eq_text_refl, length, All, All-append, Bool-cases, Option-cases,
  inl, inr, subst,
}
use mathlib.Core.List.{flatten, map}
use qsl.Core.Ids.{ThreadId}
use qsl.Desktop.Grouping.{
  MessageListItem, single, thread, flush_group, extends, group_from, group_by_thread,
}

abbrev pub members : {H : Type 0} → MessageListItem H → List H
members (single m) = m ∷ []
members (thread head ms) = ms

abbrev pub first : {H : Type 0} → MessageListItem H → H
first (single m) = m
first (thread head ms) = head

module _ {H : Type 0} (thread_id : H → Option ThreadId) where
  -- A rolled-up row: two messages at least, all of one known thread, and the first is the head.
  pub record IsRun (head : H) (ms : List H) : Type 0 where
    pub id : ThreadId
    pub rest : List H
    pub headed : ms ≡ head ∷ rest
    pub several : 1 ≤ length rest
    pub same : All (λ m. thread_id m ≡ some id) ms

  abbrev pub IsItem : MessageListItem H → Type 0
  IsItem (single m) = Unit
  IsItem (thread head ms) = IsRun head ms

  abbrev IsOpen : Option ThreadId → List H → Type 0
  IsOpen none buf = length buf ≤ 1
  IsOpen (some t) buf = All (λ m. thread_id m ≡ some t) buf

  flush_group-IsItem :
      (current : Option ThreadId) (buf : List H) → IsOpen current buf → All IsItem (flush_group buf)
  unfolding flush_group
  flush_group-IsItem current [] open_ = tt
  flush_group-IsItem current (m ∷ []) open_ = (tt, tt)
  flush_group-IsItem none (m ∷ n ∷ rest) open_ = absurd (omega arith)
  flush_group-IsItem (some t) (m ∷ n ∷ rest) open_ =
      (record { id = t; rest = n ∷ rest; headed = refl; several = omega arith; same = open_ }, tt)

  flatten-flush_group :
      (buf : List H) (items : List (MessageListItem H))
      → flatten (map members (flush_group buf ++ items)) ≡ buf ++ flatten (map members items)
  unfolding flush_group flatten
  flatten-flush_group [] items = refl
  flatten-flush_group (m ∷ []) items = refl
  flatten-flush_group (m ∷ n ∷ rest) items = refl

  same_thread : (m : H) (t : ThreadId) → extends thread_id m (some t) ≡ true → thread_id m ≡ some t
  unfolding extends
  same_thread m t h = elim (Option-cases (thread_id m)) [
    | inl e ↦ absurd (ground arith)
    | inr (u, e) ↦ ground (arith, eq_text_iff u t)
  ]

  IsOpen-grown :
      (current : Option ThreadId) (buf : List H) (m : H)
      → IsOpen current buf
      → extends thread_id m current ≡ true
      → IsOpen current (buf ++ m ∷ [])
  IsOpen-grown none buf m open_ h = absurd (unfold extends in ground arith)
  IsOpen-grown (some t) buf m open_ h =
      All-append (λ n. thread_id n ≡ some t) buf (m ∷ []) open_ (same_thread m t h, tt)

  IsOpen-one : (m : H) → IsOpen (thread_id m) (m ∷ [])
  IsOpen-one m = elim (Option-cases (thread_id m)) [
    | inl e ↦ subst (λ c. IsOpen c (m ∷ [])) (sym e) (omega arith)
    | inr (t, e) ↦ subst (λ c. IsOpen c (m ∷ [])) (sym e) (e, tt)
  ]

  group_from-cut :
      (buf : List H) (current : Option ThreadId) (m : H) (ms : List H)
      → extends thread_id m current ≡ false
      → group_from thread_id buf current (m ∷ ms)
        ≡ flush_group buf ++ group_from thread_id (m ∷ []) (thread_id m) ms
  unfolding group_from
  group_from-cut buf current m ms h = rw h refl

  group_from-longer :
      (buf : List H) (current : Option ThreadId) (m : H) (ms : List H)
      → extends thread_id m current ≡ true
      → group_from thread_id buf current (m ∷ ms) ≡ group_from thread_id (buf ++ m ∷ []) current ms
  unfolding group_from
  group_from-longer buf current m ms h = rw h refl

  group_from-runs :
      (buf : List H) (current : Option ThreadId) (ms : List H)
      → IsOpen current buf
      → (flatten (map members (group_from thread_id buf current ms)) ≡ buf ++ ms)
        × All IsItem (group_from thread_id buf current ms)
  unfolding flatten
  group_from-runs buf current [] open_ =
      unfold group_from in
      (
        ap (λ items. flatten (map members items)) (sym (append-nil (flush_group buf)))
            ∙ flatten-flush_group buf [],
        flush_group-IsItem current buf open_,
      )
  group_from-runs buf current (m ∷ ms) open_ = elim (Bool-cases (extends thread_id m current)) [
    | inl e ↦
        let (flat, good) =
          group_from-runs (buf ++ m ∷ []) current ms (IsOpen-grown current buf m open_ e) in
        rw (group_from-longer buf current m ms e) (flat ∙ append_assoc buf (m ∷ []) ms, good)
    | inr e ↦
        let (flat, good) = group_from-runs (m ∷ []) (thread_id m) ms (IsOpen-one m) in
        let later = group_from thread_id (m ∷ []) (thread_id m) ms in
        rw (group_from-cut buf current m ms e) (
          flatten-flush_group buf later ∙ ap (λ rest. buf ++ rest) flat,
          All-append IsItem (flush_group buf) later (flush_group-IsItem current buf open_) good,
        )
  ]

  -- Two messages of one known thread.
  abbrev pub Together : H → H → Type 0
  Together m n = (t : ThreadId) × (thread_id m ≡ some t) × (thread_id n ≡ some t)

  -- Neighbouring rows begin with messages that are not of one known thread.
  abbrev pub AreApart : List (MessageListItem H) → Type 0
  AreApart [] = Unit
  AreApart (i ∷ []) = Unit
  AreApart (i ∷ j ∷ items) = (¬ Together (first i) (first j)) × AreApart (j ∷ items)

  -- A list of rows that begins with `m`.
  abbrev Begins : H → List (MessageListItem H) → Type 0
  Begins m [] = ⊥
  Begins m (i ∷ items) = first i ≡ m

  not-Together : (h m : H) → extends thread_id m (thread_id h) ≡ false → ¬ Together h m
  unfolding extends
  not-Together h m e (t, f, g) = ground (arith, eq_text_refl t)

  AreApart-flush_group :
      (h : H) (rest : List H) (m : H) (later : List (MessageListItem H))
      → ¬ Together h m
      → Begins m later
      → AreApart later
      → Begins h (flush_group (h ∷ rest) ++ later) × AreApart (flush_group (h ∷ rest) ++ later)
  unfolding flush_group
  AreApart-flush_group h rest m [] cut begins apart = absurd begins
  AreApart-flush_group h [] m (j ∷ later) cut begins apart =
      (refl, (λ both. cut (subst (Together h) begins both), apart))
  AreApart-flush_group h (n ∷ rest) m (j ∷ later) cut begins apart =
      (refl, (λ both. cut (subst (Together h) begins both), apart))

  group_from-AreApart :
      (h : H) (rest ms : List H)
      → Begins h (group_from thread_id (h ∷ rest) (thread_id h) ms)
        × AreApart (group_from thread_id (h ∷ rest) (thread_id h) ms)
  group_from-AreApart h [] [] = unfold group_from flush_group in (refl, tt)
  group_from-AreApart h (n ∷ rest) [] = unfold group_from flush_group in (refl, tt)
  group_from-AreApart h rest (m ∷ ms) = elim (Bool-cases (extends thread_id m (thread_id h))) [
    | inl e ↦
        rw (group_from-longer (h ∷ rest) (thread_id h) m ms e)
          (group_from-AreApart h (rest ++ m ∷ []) ms)
    | inr e ↦
        let (begins, apart) = group_from-AreApart m [] ms in
        rw (group_from-cut (h ∷ rest) (thread_id h) m ms e) (
          AreApart-flush_group h rest m (group_from thread_id (m ∷ []) (thread_id m) ms)
            (not-Together h m e) begins apart)
  ]

  extends-none : (m : H) → extends thread_id m none ≡ false
  unfolding extends
  extends-none m = ground arith

  group_by_thread-AreApart : (messages : List H) → AreApart (group_by_thread thread_id messages)
  unfolding group_by_thread
  group_by_thread-AreApart [] = unfold group_from flush_group in tt
  group_by_thread-AreApart (m ∷ ms) =
      rw (group_from-cut [] none m ms (extends-none m))
        (unfold flush_group in (group_from-AreApart m [] ms).1)

  -- The list shows every message of the page once and in the page's order. It rolls messages up only
  -- where two or more neighbours have the same known thread, the first of them being the head, and it
  -- rolls up all of them: the first messages of neighbouring rows are never of one known thread.
  pub group_by_thread-runs :
      (messages : List H)
      → (flatten (map members (group_by_thread thread_id messages)) ≡ messages)
        × All IsItem (group_by_thread thread_id messages)
        × AreApart (group_by_thread thread_id messages)
  unfolding group_by_thread
  group_by_thread-runs messages =
      let (flat, good) = group_from-runs [] none messages (omega arith) in
      (flat, good, group_by_thread-AreApart messages)
