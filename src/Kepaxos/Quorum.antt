-- ===== src/Kepaxos/Quorum.antt =====
-- When src/kepaxos.c commits a command that this node leads.
use libgroupcache.Base.{
  ℕ, zero, suc, ◌/◌, ◌≤◌, ◌<◌, ◌≡◌, ◌≢◌, ◌⊎◌, refl, sym, ◌∙◌, true, not, ◌&&◌, none, some,
  Option-cases, Bool-cases, inl, inr, List, [], ◌∷◌, arith, ltb, leb, ◌==◌, ℤ, pos, negsuc,
}
use libgroupcache.Kepaxos.Message.{Msg}
use libgroupcache.Kepaxos.Log.{set_last_seq_for_key}
use libgroupcache.Kepaxos.State.{
  Status, accepted, pre_accepted, is_accepted, Cmd, Event, commit_call, Env, EnvLaws, Ke,
  with_commands,
}
use libgroupcache.Kepaxos.Leader.{
  preaccept_vote, accept_vote, votes_with, num_votes_with, count_ok, send_all, commit, retry,
  accept_decide, handle_accept_response,
}

-- The commit callbacks for commands that this node leads.
unfoldable pub leader_commits : List Event → ℕ
leader_commits [] = 0
leader_commits (commit_call t k d true ∷ es) = suc (leader_commits es)
leader_commits (_ ∷ es) = leader_commits es

ℤ-cases : (r : ℤ) → (r ≡ pos 0) ⊎ ((n : ℕ) × (r ≡ pos (suc n))) ⊎ ((n : ℕ) × (r ≡ negsuc n))
ℤ-cases (pos zero) = inl refl
ℤ-cases (pos (suc n)) = inr (inl (n, refl))
ℤ-cases (negsuc n) = inr (inr (n, refl))

pos-ne-zero : (n : ℕ) → pos (suc n) ≢ pos 0
pos-ne-zero n = λ e. ground arith

negsuc-ne-zero : (n : ℕ) → negsuc n ≢ pos 0
negsuc-ne-zero n = λ e. ground arith

is_accepted-status : (s : Status) → is_accepted s ≡ true → s ≡ accepted
is_accepted-status s h = ground arith

module _ {E : Env} where
  -- Nothing was committed, and the log is as it was.
  pub record IsPending (before after : Ke E) : Type 0 where
    pub log : after.log ≡ before.log
    pub commits : leader_commits after.events ≡ leader_commits before.events

  -- The command `c` was given to the commit callback, once, and left the table; it is in the log if the
  -- callback returned 0, and else the log is as it was.
  pub record IsDecided (before after : Ke E) (key : List ℕ) (c : Cmd) : Type 0 where
    pub commits : leader_commits after.events ≡ suc (leader_commits before.events)
    pub gone : E.get after.commands key ≡ none
    pub log :
        (E.commit before.events c.ctype c.key c.payload ≡ pos 0)
          × (after.log ≡ set_last_seq_for_key E.path before.log c.key c.ballot c.seq)
        ⊎ (E.commit before.events c.ctype c.key c.payload ≢ pos 0) × (after.log ≡ before.log)

  commit-IsDecided :
      (L : EnvLaws E) (ke : Ke E) (key : List ℕ) (c : Cmd)
      → IsDecided ke (commit (with_commands ke (E.delete ke.commands key)) c).after key c
  unfolding commit send_all leader_commits
  commit-IsDecided L ke key c = elim (ℤ-cases (E.commit ke.events c.ctype c.key c.payload)) [
    | inl z ↦
        rw (z, commit)
          (record { commits = refl; gone = L.get_delete ke.commands key; log = inl (z, refl) })
    | inr (inl (n, e)) ↦
        rw (e, commit)
          (record {
            commits = refl;
            gone = L.get_delete ke.commands key;
            log = inr (λ h. pos-ne-zero n (sym e ∙ h), refl);
          })
    | inr (inr (n, e)) ↦
        rw (e, commit)
          (record {
            commits = refl;
            gone = L.get_delete ke.commands key;
            log = inr (λ h. negsuc-ne-zero n (sym e ∙ h), refl);
          })
  ]

  retry-IsPending :
      (ke : Ke E) (msg : Msg) (c : Cmd) (seq : ℕ) → IsPending ke (retry ke msg c seq).after
  unfolding send_all leader_commits
  retry-IsPending ke msg c seq = record { log = refl; commits = refl }

  -- What a quorum of votes for the place of a response is.
  abbrev pub IsAgreed : Ke E → Msg → Cmd → Type 0
  IsAgreed ke msg c =
      (c.status ≡ accepted)
      × (c.ballot ≤ msg.ballot)
      × (ke.num_peers / 2 ≤ count_ok msg (votes_with c msg))

  -- What lets a leader commit after the pre-accept phase.
  abbrev pub IsUnopposed : Ke E → Msg → Cmd → Type 0
  IsUnopposed ke msg c =
      let v = preaccept_vote c msg in
      (c.status ≡ pre_accepted)
      × (c.ballot ≤ msg.ballot)
      × (ke.num_peers / 2 ≤ num_votes_with c)
      × ((v.max_seq < v.seq) ⊎ ((v.seq ≡ v.max_seq) × (v.max_seq_committed ≡ 0)))

  accept_decide-quorum :
      (L : EnvLaws E) (ke : Ke E) (msg : Msg) (c : Cmd)
      → let after = (accept_decide ke msg c).after in
        IsPending ke after
        ⊎ ((ke.num_peers / 2 ≤ count_ok msg c.votes) × IsDecided ke after msg.key c)
  unfolding accept_decide
  accept_decide-quorum L ke msg c =
      elim (Bool-cases (ltb (count_ok msg c.votes) (ke.num_peers / 2))) [
        | inl few ↦ rw few (elim (Bool-cases (leb (ke.num_peers / 2) c.num_votes)) [
          | inl n ↦ rw n (inl (retry-IsPending ke msg c _))
          | inr n ↦ rw n (inl (record { log = refl; commits = refl }))
        ])
        | inr many ↦ rw many (inr (ground arith, commit-IsDecided L ke msg.key c))
      ]

  -- kepaxos_handle_accept_response, for a hash table that keeps its laws: either nothing is committed
  -- and the log is as it was, or the key has an accepted command, whose ballot is not above the
  -- response's, and at least half of num_peers of its votes, this one included, are for the
  -- sequence number and the ballot of the response; then the command leaves the table, the commit
  -- callback is called once, and the log has the command if that returned 0.
  pub handle_accept_response-quorum :
      (L : EnvLaws E) (ke : Ke E) (msg : Msg)
      → let after = (handle_accept_response ke msg).after in
        IsPending ke after
        ⊎ ((c : Cmd) × (E.get ke.commands msg.key ≡ some c)
            × IsAgreed ke msg c
            × IsDecided ke after msg.key (accept_vote c msg))
  unfolding handle_accept_response accept_vote
  handle_accept_response-quorum L ke msg = elim (Option-cases (E.get ke.commands msg.key)) [
    | inl n ↦ rw (n, handle_accept_response) (inl (record { log = refl; commits = refl }))
    | inr (c, e) ↦
        rw (e, handle_accept_response)
          (elim (Bool-cases (ltb msg.ballot c.ballot)) [
            | inl l ↦ rw l (inl (record { log = refl; commits = refl }))
            | inr l ↦ rw l (elim (Bool-cases (is_accepted c.status)) [
              | inr a ↦ rw a (inl (record { log = refl; commits = refl }))
              | inl a ↦ rw a (elim (Bool-cases ((c.seq == msg.seq) && not (msg.committed == 0))) [
                | inl b ↦ rw b (inl (retry-IsPending ke msg c _))
                | inr b ↦ rw b (elim (accept_decide-quorum L ke msg (accept_vote c msg)) [
                  | inl p ↦ inl p
                  | inr (q, d) ↦ inr (c, refl, (is_accepted-status c.status a, ground arith, q), d)
                ])
              ])
            ])
          ])
  ]
