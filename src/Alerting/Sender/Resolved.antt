-- ===== src/Alerting/Sender/Resolved.antt =====
-- What the second loop of `Notify` does.
use inference_fabric_autopil.Prelude.{
  ◌≤◌, ◌≡◌, refl, ◌∙◌, true, false, none, List, [], ◌∷◌, All, Bool-cases, Option-cases, inl, inr,
  ◌⊎◌, arith, is_some,
}
use inference_fabric_autopil.Prelude.Int.{ℤ}
use inference_fabric_autopil.Prelude.Texts.{Text, text_eq, text_eq_iff, text_eq→eq}
use inference_fabric_autopil.Prelude.Maps.{
  Map, lookup, NodupKeys, lookup-erase_ne, lookup-erase_self, lookup-erase-none, NodupKeys-erase,
}
use inference_fabric_autopil.Recommender.Engine.{contains}
use inference_fabric_autopil.Alerting.Payload.{OpenAlert}
use inference_fabric_autopil.Alerting.Sender.{Sender, enqueue, announce, resolve_one, resolve_all}

module _ {A : Type 0} where
  resolve_one-frame :
      (now : ℤ) (present : List Text) (e : Text × OpenAlert) (s : Sender A)
      → ((resolve_one now present e s).min_severity ≡ s.min_severity)
        × (s.dropped ≤ (resolve_one now present e s).dropped)
  unfolding resolve_one announce enqueue
  resolve_one-frame now present e s = (ground arith, ground arith)

  pub resolve_all-frame :
      (now : ℤ) (present : List Text) (entries : Map OpenAlert) (s : Sender A)
      → ((resolve_all now present entries s).min_severity ≡ s.min_severity)
        × (s.dropped ≤ (resolve_all now present entries s).dropped)
  unfolding resolve_all
  resolve_all-frame now present [] s = (refl, omega arith)
  resolve_all-frame now present (e ∷ entries) s =
      let (m, d) = resolve_one-frame now present e s in
      let (m', d') = resolve_all-frame now present entries (resolve_one now present e s) in
      (m' ∙ m, omega arith)

  resolve_one-distinct :
      (now : ℤ) (present : List Text) (e : Text × OpenAlert) (s : Sender A)
      → NodupKeys s.open_alerts
      → NodupKeys (resolve_one now present e s).open_alerts
  unfolding resolve_one announce enqueue
  resolve_one-distinct now present e s d = ground (arith, NodupKeys-erase e.0 s.open_alerts)

  pub resolve_all-distinct :
      (now : ℤ) (present : List Text) (entries : Map OpenAlert) (s : Sender A)
      → NodupKeys s.open_alerts
      → NodupKeys (resolve_all now present entries s).open_alerts
  unfolding resolve_all
  resolve_all-distinct now present [] s d = d
  resolve_all-distinct now present (e ∷ entries) s d =
      resolve_all-distinct now present entries (resolve_one now present e s)
        (resolve_one-distinct now present e s d)

  resolve_one-kept :
      (now : ℤ) (present : List Text) (e : Text × OpenAlert) (s : Sender A) (id : Text)
      → contains id present ≡ true
      → lookup id (resolve_one now present e s).open_alerts ≡ lookup id s.open_alerts
  unfolding resolve_one announce enqueue
  resolve_one-kept now present e s id h =
      ground (arith, text_eq_iff id e.0, lookup-erase_ne e.0 id s.open_alerts)

  -- The second loop leaves what is present open.
  pub resolve_all-kept :
      (now : ℤ) (present : List Text) (entries : Map OpenAlert) (s : Sender A) (id : Text)
      → contains id present ≡ true
      → lookup id (resolve_all now present entries s).open_alerts ≡ lookup id s.open_alerts
  unfolding resolve_all
  resolve_all-kept now present [] s id h = refl
  resolve_all-kept now present (e ∷ entries) s id h =
      resolve_all-kept now present entries (resolve_one now present e s) id h
      ∙ resolve_one-kept now present e s id h

  -- An id that is still to come, or that is not open.
  abbrev pub IsLeft : Text → Map OpenAlert → Sender A → Type 0
  IsLeft id entries s = (lookup id s.open_alerts ≡ none) ⊎ (is_some (lookup id entries) ≡ true)

  pub IsLeft-start : (id : Text) (s : Sender A) → IsLeft id s.open_alerts s
  IsLeft-start id s = elim (Option-cases (lookup id s.open_alerts)) [
    | inl e ↦ inl e
    | inr (a, e) ↦ inr (rw e refl)
  ]

  resolve_one-closed :
      (now : ℤ) (present : List Text) (e : Text × OpenAlert) (s : Sender A)
      → NodupKeys s.open_alerts
      → contains e.0 present ≡ false
      → (resolve_one now present e s).dropped ≡ s.dropped
      → lookup e.0 (resolve_one now present e s).open_alerts ≡ none
  unfolding resolve_one announce enqueue
  resolve_one-closed now present e s d h n = ground (arith, lookup-erase_self e.0 s.open_alerts d)

  resolve_one-none :
      (now : ℤ) (present : List Text) (e : Text × OpenAlert) (s : Sender A) (id : Text)
      → lookup id s.open_alerts ≡ none
      → lookup id (resolve_one now present e s).open_alerts ≡ none
  unfolding resolve_one announce enqueue
  resolve_one-none now present e s id h = ground (arith, lookup-erase-none e.0 id s.open_alerts)

  resolve_one-IsLeft :
      (now : ℤ) (present : List Text) (e : Text × OpenAlert) (entries : Map OpenAlert)
      (s : Sender A) (id : Text)
      → NodupKeys s.open_alerts
      → contains id present ≡ false
      → (resolve_one now present e s).dropped ≡ s.dropped
      → IsLeft id (e ∷ entries) s
      → IsLeft id entries (resolve_one now present e s)
  unfolding resolve_one announce enqueue lookup
  resolve_one-IsLeft now present e entries s id d h n left = elim (Bool-cases (text_eq id e.0)) [
    | inl hit ↦ inl (closed (text_eq→eq id e.0 hit))
    | inr miss ↦ elim left [
      | inl none_open ↦ inl (resolve_one-none now present e s id none_open)
      | inr more ↦ inr (rw miss at more)
    ]
  ]
    where
      closed : id ≡ e.0 → lookup id (resolve_one now present e s).open_alerts ≡ none
      closed same = rw same (resolve_one-closed now present e s d (rw same at h) n)

  -- If nothing was dropped, the second loop closes what is not present.
  pub resolve_all-closed :
      (now : ℤ) (present : List Text) (entries : Map OpenAlert) (s : Sender A) (id : Text)
      → NodupKeys s.open_alerts
      → contains id present ≡ false
      → (resolve_all now present entries s).dropped ≡ s.dropped
      → IsLeft id entries s
      → lookup id (resolve_all now present entries s).open_alerts ≡ none
  unfolding resolve_all lookup
  resolve_all-closed now present [] s id d h n (inl none_open) = none_open
  resolve_all-closed now present [] s id d h n (inr c) = cc
  resolve_all-closed now present (e ∷ entries) s id d h n left =
      let (m, le) = resolve_one-frame now present e s in
      let (m', le') = resolve_all-frame now present entries (resolve_one now present e s) in
      resolve_all-closed now present entries (resolve_one now present e s) id
        (resolve_one-distinct now present e s d) h (omega arith)
        (resolve_one-IsLeft now present e entries s id d h (omega arith) left)

  -- The second loop does nothing if all its entries are present.
  pub resolve_all-quiet :
      (now : ℤ) (present : List Text) (entries : Map OpenAlert) (s : Sender A)
      → All (λ e. contains e.0 present ≡ true) entries
      → resolve_all now present entries s ≡ s
  unfolding resolve_all resolve_one
  resolve_all-quiet now present [] s h = refl
  resolve_all-quiet now present (e ∷ entries) s h =
      rw h.0 (resolve_all-quiet now present entries s h.1)
