-- ===== src/Notification/Dispatch.antt =====
-- internal/notification/manager.go: which notifiers get an event.
use docker_backup.Base.{
  ℕ, Bool, true, false, ◌&&◌, Option, none, some, List, [], ◌∷◌, ◌≡◌, refl, arith, length,
  if◌then◌else◌, inl, inr, Option-cases, Text, ◌==◌, Result,
}
use docker_backup.Base.Strings.Laws.{==_iff}
use docker_backup.Base.Map.{Map, get, put, has, keys, NodupKeys, put-NodupKeys, get-put}
use docker_backup.Notification.{Event}

-- A notifier sends over the network; what it sends to is the world `W`.
pub record Notifier (W : Type 0) : Type 0 where
  pub name : Text
  pub send : Event → W → Result (Unit {0}) × W

-- A string stands in a list.
abbrev pub names : Text → List Text → Bool
names k [] = false
names k (p ∷ ps) = if k == p then true else names k ps

module _ {W : Type 0} where
  unfoldable pub add_notifier : Text → Notifier W → Map (Notifier W) → Map (Notifier W)
  add_notifier name n notifiers = put name n notifiers

  -- One round of the loop: a provider that is not registered is logged and no more.
  unfoldable pub choose_one : Text → Option (Notifier W) → Map (Notifier W) → Map (Notifier W)
  choose_one name none chosen = chosen
  choose_one name (some n) chosen = put name n chosen

  -- The loop over the providers, with the notifiers chosen so far.
  unfoldable pub choose : Map (Notifier W) → List Text → Map (Notifier W) → Map (Notifier W)
  unfolding choose_one
  choose registered [] chosen = chosen
  choose registered (name ∷ names) chosen =
      choose registered names (choose_one name (get name registered) chosen)

  -- The goroutines of Notify, in the order in which they run; a failure is logged and no more.
  unfoldable pub send_all : Map (Notifier W) → Event → W → W
  send_all [] event w = w
  send_all ((name, n) ∷ ns) event w = send_all ns event (n.send event w).1

  unfoldable pub notify : Map (Notifier W) → Event → List Text → W → W
  unfolding choose send_all
  notify registered event [] w = w
  notify registered event (p ∷ ps) w = send_all (choose registered (p ∷ ps) []) event w

  unfoldable pub notifier_count : Map (Notifier W) → ℕ
  notifier_count notifiers = length notifiers

  unfoldable pub list_notifiers : Map (Notifier W) → List Text
  list_notifiers notifiers = keys notifiers

  choose_onto :
      (registered : Map (Notifier W)) (ps : List Text) (chosen : Map (Notifier W)) (k : Text)
      → get k (choose registered ps chosen)
        ≡ (if names k ps && has k registered then get k registered else get k chosen)
  unfolding choose
  choose_onto registered [] chosen k = refl
  choose_onto registered (p ∷ ps) chosen k = elim (Option-cases (get p registered)) [
    | inl e ↦ ground (arith, e, ==_iff k p, choose_onto registered ps chosen k)
    | inr (n, e) ↦ ground (
      arith,
      e,
      ==_iff k p,
      ==_iff p k,
      get-put p k n chosen,
      choose_onto registered ps (put p n chosen) k,
    )
  ]

  choose_one-NodupKeys :
      (name : Text) (o : Option (Notifier W)) (chosen : Map (Notifier W))
      → NodupKeys chosen
      → NodupKeys (choose_one name o chosen)
  unfolding choose_one
  choose_one-NodupKeys name none chosen u = u
  choose_one-NodupKeys name (some n) chosen u = put-NodupKeys name n chosen u

  choose-NodupKeys :
      (registered : Map (Notifier W)) (ps : List Text) (chosen : Map (Notifier W))
      → NodupKeys chosen
      → NodupKeys (choose registered ps chosen)
  unfolding choose
  choose-NodupKeys registered [] chosen u = u
  choose-NodupKeys registered (p ∷ ps) chosen u =
      choose-NodupKeys registered ps (choose_one p (get p registered) chosen)
        (choose_one-NodupKeys p (get p registered) chosen u)

  choose_lem :
      (registered : Map (Notifier W)) (ps : List Text)
      → NodupKeys (choose registered ps [])
        × ((k : Text)
            → get k (choose registered ps []) ≡ (if names k ps then get k registered else none))
  unfolding get
  choose_lem registered ps =
      (choose-NodupKeys registered ps [] tt, λ k. ground (arith, choose_onto registered ps [] k))

  -- Each of these notifiers, and no other, sends the event once, in this order.
  pub data Sends (event : Event) : Map (Notifier W) → W → W → Type 0 where
    none_left : {w : W} → Sends event [] w w
    one_sends :
        {name : Text} {n : Notifier W} {ns : Map (Notifier W)} {r : Result (Unit {0})} {w v u : W}
        → n.send event w ≡ (r, v)
        → Sends event ns v u
        → Sends event ((name, n) ∷ ns) w u

  send_all-Sends :
      (ns : Map (Notifier W)) (event : Event) (w : W) → Sends event ns w (send_all ns event w)
  unfolding send_all
  send_all-Sends [] event w = none_left
  send_all-Sends ((name, n) ∷ ns) event w =
      one_sends refl (send_all-Sends ns event (n.send event w).1)

  -- Notify has each of a set of notifiers, and no other, send the event once, whether sends fail
  -- or not, in the order of the map: of each name that is both listed as a provider and
  -- registered, the notifier registered for it, and no name twice.
  pub notify-Sends :
      (registered : Map (Notifier W)) (event : Event) (ps : List Text) (w : W)
      → (chosen : Map (Notifier W)) × NodupKeys chosen
        × ((k : Text) → get k chosen ≡ (if names k ps then get k registered else none))
        × Sends event chosen w (notify registered event ps w)
  unfolding notify get
  notify-Sends registered event [] w = ([], tt, (λ k. refl), none_left)
  notify-Sends registered event (p ∷ ps) w =
      let (different, exact) = choose_lem registered (p ∷ ps) in
      (choose registered (p ∷ ps) [], different, exact, send_all-Sends _ event w)
