-- ===== src/Worker/Loop.antt =====
-- The loop of a pass of the relay, row by row.
use blog_post.Base.{
  ℕ, ◌+◌, ◌≤◌, ◌≡◌, ◌≢◌, refl, sym, subst, ◌∙◌, Bool, Option, none, some, List, [], ◌∷◌, arith, leb,
  Bool-cases, Option-cases, inl, inr, if◌then◌else◌, ◌==◌, ==→eq, ==-ne, is_none,
}
use blog_post.Base.Tables.{All, Unique, find_first, update_where}
use blog_post.Database.Events.{OutboxEvent}
use blog_post.Database.Exec.{World, ok, pure, ◌>>=◌, draw, modify}
use blog_post.Repository.Outbox.{mark_failed, set_failed, set_published}
use blog_post.Auth.Service.{seconds}
use blog_post.Worker.{OutboxWorker, ceiling, relay}
use blog_post.Worker.Rows.{Rowwise, Rowwise-refl, Rowwise-map, Rowwise-before}

-- The claimed event of a row.
abbrev pub claim_of : OutboxEvent → List OutboxEvent → Option OutboxEvent
claim_of r claimed = find_first (λ e. r.id == e.id) claimed

module _ (self : OutboxWorker) (now : ℕ) where
  -- After a publication that raised: the row waits at most ten minutes for its next attempt, or is
  -- dead after the last.
  abbrev pub Retried : OutboxEvent → List ℕ → OutboxEvent → OutboxEvent → Type 0
  Retried e error before after =
      (next : ℕ) × (now ≤ next)
      × (next ≤ now + seconds 600)
      × (after ≡ set_failed error next (leb self.max_attempts (e.attempts + 1)) before)

  abbrev pub PublishedAs : OutboxEvent → Option (List ℕ) → OutboxEvent → OutboxEvent → Type 0
  PublishedAs e none before after = after ≡ set_published now before
  PublishedAs e (some error) before after = Retried e error before after

  -- What a pass does to a row: nothing if it was not claimed, and else what the publication of
  -- its event says.
  abbrev pub Fate : Option OutboxEvent → OutboxEvent → OutboxEvent → Type 0
  Fate none before after = after ≡ before
  Fate (some e) before after = PublishedAs e (self.publish e) before after

  -- The same before the published rows are marked.
  abbrev pub LoopedAs : OutboxEvent → Option (List ℕ) → OutboxEvent → OutboxEvent → Type 0
  LoopedAs e none before after = after ≡ before
  LoopedAs e (some error) before after = Retried e error before after

  abbrev pub Looped : Option OutboxEvent → OutboxEvent → OutboxEvent → Type 0
  Looped none before after = after ≡ before
  Looped (some e) before after = LoopedAs e (self.publish e) before after

  abbrev pub LoopedRows : List OutboxEvent → List OutboxEvent → List OutboxEvent → Type 0
  LoopedRows claimed = Rowwise (λ x y. Looped (claim_of x claimed) x y)

  unclaimed :
      (e x : OutboxEvent) (rest : List OutboxEvent)
      → All (λ y. y.id ≢ e.id) rest
      → x.id ≡ e.id
      → claim_of x rest ≡ none
  unfolding find_first
  unclaimed e x [] h same = refl
  unclaimed e x (y ∷ ys) h same =
      rw (==-ne x.id y.id (λ q. h.0 (sym q ∙ same))) (unclaimed e x ys h.1 same)

  unfoldable pub delivered : List OutboxEvent → List ℕ
  delivered [] = []
  delivered (e ∷ rest) = if is_none (self.publish e) then e.id ∷ delivered rest else delivered rest

  -- An event that was published leaves the loop's table alone.
  published-row :
      (e : OutboxEvent) (rest : List OutboxEvent) (x y : OutboxEvent)
      → self.publish e ≡ none
      → All (λ z. z.id ≢ e.id) rest
      → Looped (claim_of x rest) x y
      → Looped (claim_of x (e ∷ rest)) x y
  unfolding find_first
  published-row e rest x y sent apart l = elim (Bool-cases (x.id == e.id)) [
    | inl mine ↦
        rw (mine, sent) (subst (λ o. Looped o x y) (unclaimed e x rest apart (==→eq _ _ mine)) l)
    | inr other ↦ rw other l
  ]

  failed-row :
      (e : OutboxEvent) (error : List ℕ) (next : ℕ) (rest : List OutboxEvent) (x y : OutboxEvent)
      → self.publish e ≡ some error
      → All (λ z. z.id ≢ e.id) rest
      → now ≤ next
      → next ≤ now + seconds 600
      → let x1 =
          if x.id == e.id
          then set_failed error next (leb self.max_attempts (e.attempts + 1)) x
          else x in
        Looped (claim_of x1 rest) x1 y → Looped (claim_of x (e ∷ rest)) x y
  unfolding find_first set_failed
  failed-row e error next rest x y raised apart lo hi l = elim (Bool-cases (x.id == e.id)) [
    | inl mine ↦
        rw (mine, raised)
          (
            next,
            lo,
            hi,
            subst
                (λ o. Looped o (set_failed error next (leb self.max_attempts (e.attempts + 1)) x) y)
                (unclaimed e (set_failed error next (leb self.max_attempts (e.attempts + 1)) x) rest
                  apart (==→eq x.id e.id mine))
                (rw mine at l),
          )
    | inr other ↦ rw other (rw other at l)
  ]

module _ (self : OutboxWorker) (now : ℕ) (bounded : (n c : ℕ) → self.uniform n c ≤ c) where
  abbrev pub RelayedTo : List OutboxEvent → World → Type 0
  RelayedTo claimed w =
      (after : World) × (relay self now claimed w ≡ (ok (delivered self now claimed), after))
      × LoopedRows self now claimed w.db.outbox_events after.db.outbox_events

  sent-RelayedTo :
      (e : OutboxEvent) (rest : List OutboxEvent) (w : World)
      → self.publish e ≡ none
      → All (λ z. z.id ≢ e.id) rest
      → RelayedTo rest w
      → RelayedTo (e ∷ rest) w
  unfolding relay delivered ◌>>=◌
  sent-RelayedTo e rest w sent apart (after, same, rows) = (
    after,
    rw (sent, same) refl,
    Rowwise-map _ _ w.db.outbox_events after.db.outbox_events
        (λ x y. published-row self now e rest x y sent apart) rows,
  )

  soon : (n a : ℕ) → self.uniform n (seconds (ceiling a)) ≤ seconds 600
  unfolding ceiling
  soon n a = omega (arith, bounded n (seconds (ceiling a)))

  raised-RelayedTo :
      (e : OutboxEvent) (error : List ℕ) (rest : List OutboxEvent) (w : World)
      → self.publish e ≡ some error
      → All (λ z. z.id ≢ e.id) rest
      → ((w1 : World) → RelayedTo rest w1)
      → RelayedTo (e ∷ rest) w
  unfolding relay delivered mark_failed ◌>>=◌ modify draw
  raised-RelayedTo e error rest w raised apart ih =
      let next = now + self.uniform w.drawn (seconds (ceiling e.attempts)) in
      let p : OutboxEvent → Bool = λ x. x.id == e.id in
      let f = set_failed error next (leb self.max_attempts (e.attempts + 1)) in
      let (after, same, rows) = ih (record w {
        drawn = w.drawn + 1;
        db = record w.db { outbox_events = update_where p f w.db.outbox_events };
      }) in
      (
        after,
        rw (raised, same) refl,
        Rowwise-before _ _ p f w.db.outbox_events after.db.outbox_events
            (λ x y.
              failed-row self now e error next rest x y raised apart (omega arith)
                (omega (arith, soon w.drawn e.attempts)))
            rows,
      )

  pub relay-RelayedTo :
      (claimed : List OutboxEvent) (w : World) → Unique (λ e. e.id) claimed → RelayedTo claimed w
  unfolding relay delivered find_first pure
  relay-RelayedTo [] w unique = (w, refl, Rowwise-refl _ w.db.outbox_events (λ x. refl))
  relay-RelayedTo (e ∷ rest) w unique = elim (Option-cases (self.publish e)) [
    | inl sent ↦ sent-RelayedTo e rest w sent unique.0 (relay-RelayedTo rest w unique.1)
    | inr (error, raised) ↦
        raised-RelayedTo e error rest w raised unique.0 (λ w1. relay-RelayedTo rest w1 unique.1)
  ]
