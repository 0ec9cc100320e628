-- ===== src/Delivery/Received.antt =====
-- verifier/src/hydra_daemon.rs: what each active attester is sent after a batch.
use unified_attestation.Prelude.{
  ℕ, ◌≡◌, ◌⊎◌, inl, inr, refl, sym, ap, ◌∙◌, Option, none, some, List, [], ◌∷◌, ◌++◌, append_assoc,
  append-nil, map, get_elem?,
}
use unified_attestation.Outcome.{ok_inj, Result, ok, err, panic, stuck, ok->>=}
use unified_attestation.Bytes.{Bytes}
use unified_attestation.Crypto.{Crypto}
use unified_attestation.Sealing.{Sealing, encode_encrypted_verifier_response}
use unified_attestation.Messages.Typed.{PublicContext, encode_public_context_message}
use unified_attestation.Authorization.{build_attester_response}
use unified_attestation.Daemon.{AttesterSession, VerifierState, Batch, process_batch}
use unified_attestation.Delivery.{
  Action, send_response, send_context, publish, ComputedResponse, Draw, caught, caught_all,
  build_encrypted_attester_response, store_actions, send_actions, compute_store_and_send_responses,
  send_context_only_refreshes, publish_public_context_to_all, Effects, and_then, send_batch,
}
use unified_attestation.Delivery.Everyone.{In}
use unified_attestation.Delivery.Groups.{PathIsNew, PathStays, process_batch-Grouped}

In-left : {A : Type 0} (x : A) (xs ys : List A) → In x xs → In x (xs ++ ys)
In-left x (y ∷ xs) ys (inl h) = inl h
In-left x (y ∷ xs) ys (inr h) = inr (In-left x xs ys h)
In-left x [] ys h = absurd h

In-right : {A : Type 0} (x : A) (xs ys : List A) → In x ys → In x (xs ++ ys)
In-right x [] ys h = h
In-right x (y ∷ xs) ys h = inr (In-right x xs ys h)

In-map : {A B : Type 0} (f : A → B) (x : A) (xs : List A) → In x xs → In (f x) (map f xs)
In-map f x [] h = h
In-map f x (y ∷ xs) (inl h) = inl (ap f h)
In-map f x (y ∷ xs) (inr h) = inr (In-map f x xs h)

In-caught_all :
    {A B : Type 0} (f : A → Result B) (xs : List A) (a : A) (b : B) (out : List (Option B))
    → In a xs
    → f a ≡ ok b
    → caught_all f xs ≡ ok out
    → In (some b) out
In-caught_all f [] a b out h e made = absurd h
In-caught_all f (y ∷ xs) a b out (inl here) e made =
    let (first, e1, made1) = ok->>= (caught (f y)) _ made in
    let (rest, e2, made2) = ok->>= (caught_all f xs) _ made1 in
    let same : some b ≡ first = ok_inj (sym (ap caught (ap f (sym here) ∙ e)) ∙ e1) in
    rw (sym (ok_inj made2)) (inl same)
In-caught_all f (y ∷ xs) a b out (inr there) e made =
    let (first, e1, made1) = ok->>= (caught (f y)) _ made in
    let (rest, e2, made2) = ok->>= (caught_all f xs) _ made1 in
    let later = In-caught_all f xs a b rest there e e2 in rw (sym (ok_inj made2)) (inr later)

module _ {c : Crypto} where
  In-send_actions :
      (computed : List (Option (ComputedResponse c))) (r : ComputedResponse c)
      → In (some r) computed
      → In (send_response r.socket r.encrypted) (send_actions c computed)
  unfolding send_actions
  In-send_actions [] r h = h
  In-send_actions (none ∷ computed) r (inl h) = absurd cc
  In-send_actions (none ∷ computed) r (inr h) = In-send_actions computed r h
  In-send_actions (some r' ∷ computed) r (inl h) = let same : r ≡ r' = cc in rw same (inl refl)
  In-send_actions (some r' ∷ computed) r (inr h) = inr (In-send_actions computed r h)

  and_then-ok :
      (first : Result (List (Action c))) (rest : Effects c)
      → (and_then c first rest).1 ≡ ok tt
      → (actions : List (Action c)) × (first ≡ ok actions)
        × (rest.1 ≡ ok tt)
        × ((and_then c first rest).0 ≡ actions ++ rest.0)
  and_then-ok (ok actions) rest h = (actions, refl, h, refl)
  and_then-ok (err e) rest h = absurd cc
  and_then-ok panic rest h = absurd cc
  and_then-ok stuck rest h = absurd cc

  In-context :
      (snapshots : List (ℕ × AttesterSession c)) (ctx : PublicContext c) (i : ℕ)
      (item : AttesterSession c) (message : Bytes) (actions : List (Action c))
      → In (i, item) snapshots
      → encode_public_context_message c ctx ≡ ok message
      → send_context_only_refreshes c snapshots ctx ≡ ok actions
      → In (send_context item.socket message) actions
  unfolding send_context_only_refreshes
  In-context snapshots ctx i item message actions here e made = rw (sym (ok_inj (rw e at made))) (
      In-map (λ (s : ℕ × AttesterSession c). send_context s.1.socket message) (i, item) snapshots
        here)

module _ {c : Crypto} {x : Sealing} where
  build_encrypted-socket :
      (draw : Draw x) (i : ℕ) (item : AttesterSession c) (root leaves : List c.Scalar)
      (key : c.SigningKey) (ctx : PublicContext c) (r : ComputedResponse c)
      → build_encrypted_attester_response c x draw i item root leaves key ctx ≡ ok r
      → r.socket ≡ item.socket
  unfolding build_encrypted_attester_response
  build_encrypted-socket draw i item root leaves key ctx r e =
      let (response, e1, made1) =
        ok->>= (build_attester_response c draw.now item root leaves key) _ e in
      let (encrypted, e2, made2) =
        ok->>=
          (encode_encrypted_verifier_response c x draw.ephemeral_secret draw.nonce response ctx
            item.dev_infor.verifying_key)
          _ made1 in
      sym (ap (λ (r : ComputedResponse c). r.socket) (ok_inj made2))

  In-responses :
      (draws : ℕ → Draw x) (snapshots : List (ℕ × AttesterSession c)) (root leaves : List c.Scalar)
      (key : c.SigningKey) (ctx : PublicContext c) (i : ℕ) (item : AttesterSession c)
      (r : ComputedResponse c) (actions : List (Action c))
      → In (i, item) snapshots
      → build_encrypted_attester_response c x (draws i) i item root leaves key ctx ≡ ok r
      → compute_store_and_send_responses c x draws snapshots root leaves key ctx ≡ ok actions
      → In (send_response item.socket r.encrypted) actions
  unfolding compute_store_and_send_responses
  In-responses draws snapshots root leaves key ctx i item r actions here e made =
      let f : ℕ × AttesterSession c → Result (ComputedResponse c) =
        λ s. build_encrypted_attester_response c x (draws s.0) s.0 s.1 root leaves key ctx in
      let (computed, e1, made1) = ok->>= (caught_all f snapshots) _ made in
      let sent =
        In-send_actions computed r (In-caught_all f snapshots (i, item) r computed here e e1) in
      rw (sym (ok_inj made1), sym (build_encrypted-socket (draws i) i item root leaves key ctx r e))
        (In-right _ (store_actions c computed) (send_actions c computed) sent)

  abbrev respond :
      (ℕ → Draw x)
      → c.SigningKey
      → Batch c
      → List (ℕ × AttesterSession c)
      → Result (List (Action c))
  respond draws key batch snapshots =
      compute_store_and_send_responses c x draws snapshots batch.root batch.leaves key
        batch.public_context

  -- The four stages of a batch that ended, in their order.
  record Stages (draws : ℕ → Draw x) (key : c.SigningKey) (addrs : List Bytes) (batch : Batch c)
      : Type 0 where
    pub old : List (Action c)
    pub contexts : List (Action c)
    pub published : List (Action c)
    pub new : List (Action c)
    pub old_eq : respond draws key batch batch.affected_old ≡ ok old
    pub contexts_eq :
        send_context_only_refreshes c batch.unaffected_old batch.public_context ≡ ok contexts
    pub published_eq : publish_public_context_to_all c addrs batch.public_context ≡ ok published
    pub new_eq : respond draws key batch batch.new_sessions ≡ ok new
    pub actions_eq :
        (send_batch c x draws key addrs batch).0 ≡ old ++ (contexts ++ (published ++ (new ++ [])))

  send_batch-Stages :
      (draws : ℕ → Draw x) (key : c.SigningKey) (addrs : List Bytes) (batch : Batch c)
      → (send_batch c x draws key addrs batch).1 ≡ ok tt
      → Stages draws key addrs batch
  unfolding send_batch
  send_batch-Stages draws key addrs batch done =
      let last : Effects c = ([], ok tt) in
      let fourth = and_then c (respond draws key batch batch.new_sessions) last in
      let third = and_then c (publish_public_context_to_all c addrs batch.public_context) fourth in
      let second =
        and_then c (send_context_only_refreshes c batch.unaffected_old batch.public_context)
          third in
      let (old, e1, rest1, all1) =
        and_then-ok (respond draws key batch batch.affected_old) second done in
      let (contexts, e2, rest2, all2) =
        and_then-ok (send_context_only_refreshes c batch.unaffected_old batch.public_context) third
          rest1 in
      let (published, e3, rest3, all3) =
        and_then-ok (publish_public_context_to_all c addrs batch.public_context) fourth rest2 in
      let (new, e4, rest4, all4) =
        and_then-ok (respond draws key batch batch.new_sessions) last rest3 in
      record {
        old = old;
        contexts = contexts;
        published = published;
        new = new;
        old_eq = e1;
        contexts_eq = e2;
        published_eq = e3;
        new_eq = e4;
        actions_eq =
            all1
            ∙ ap (λ (t : List (Action c)). old ++ t)
                (all2
                  ∙ ap (λ (t : List (Action c)). contexts ++ t)
                      (all3 ∙ ap (λ (t : List (Action c)). published ++ t) all4));
      }

  -- Take a batch that is sent without a panic, and any attester that is active after it, provided
  -- that its response can be computed and encrypted and the new public context encoded. If it is
  -- new, or its leaf has another owner root than before, it is sent, at its own socket, that
  -- response, which is computed and encrypted for it with the new roots; if it was active before
  -- and its owner root stays, it is sent the message with the new public context.
  pub send_batch-InBatch :
      (verifier_pk : c.VerifyingKey) (st st' : VerifierState c) (batch : Batch c) (i : ℕ)
      (item : AttesterSession c) (draws : ℕ → Draw x) (key : c.SigningKey) (addrs : List Bytes)
      (r : ComputedResponse c) (message : Bytes)
      → process_batch c verifier_pk st ≡ ok (st', some batch)
      → get_elem? st'.active i ≡ some item
      → (send_batch c x draws key addrs batch).1 ≡ ok tt
      → build_encrypted_attester_response c x
          (draws i)
          i
          item
          batch.root
          batch.leaves
          key
          batch.public_context
        ≡ ok r
      → encode_public_context_message c batch.public_context ≡ ok message
      → (PathIsNew st i
          × In (send_response item.socket r.encrypted) (send_batch c x draws key addrs batch).0)
        ⊎ (PathStays st i
            × In (send_context item.socket message) (send_batch c x draws key addrs batch).0)
  send_batch-InBatch verifier_pk st st' batch i item draws key addrs r message ran here done built
        encoded =
      let stages = send_batch-Stages draws key addrs batch done in
      let rest3 = stages.published ++ (stages.new ++ []) in
      let rest2 = stages.contexts ++ rest3 in
      let responded : (snapshots : List (ℕ × AttesterSession c)) (actions : List (Action c))
          → In (i, item) snapshots
          → respond draws key batch snapshots ≡ ok actions
          → In (send_response item.socket r.encrypted) actions =
        λ snapshots actions inside made.
          In-responses draws snapshots batch.root batch.leaves key batch.public_context i item r
            actions inside built made in
      rw stages.actions_eq (elim (process_batch-Grouped verifier_pk st st' batch i item ran here) [
        | inr (inl (before, moves, affected)) ↦ inl (
          inr (before, moves),
          In-left _ stages.old rest2
              (responded batch.affected_old stages.old affected stages.old_eq),
        )
        | inr (inr (before, stays, unaffected)) ↦ inr (
          (before, stays),
          In-right _ stages.old rest2 (
              In-left _ stages.contexts rest3 (
                In-context batch.unaffected_old batch.public_context i item message stages.contexts
                  unaffected encoded stages.contexts_eq)),
        )
        | inl (after, new) ↦ inl (
          inl after,
          In-right _ stages.old rest2 (
              In-right _ stages.contexts rest3 (
                In-right _ stages.published (stages.new ++ []) (
                  In-left _ stages.new []
                    (responded batch.new_sessions stages.new new stages.new_eq)))),
        )
      ])

  -- In a batch that is sent without a panic, the message with the new public context is published
  -- to each relying party before each new attester is sent the response that was computed and
  -- encrypted for it.
  pub send_batch-published_first :
      (draws : ℕ → Draw x) (key : c.SigningKey) (addrs : List Bytes) (batch : Batch c)
      (message addr : Bytes) (i : ℕ) (item : AttesterSession c) (r : ComputedResponse c)
      → (send_batch c x draws key addrs batch).1 ≡ ok tt
      → encode_public_context_message c batch.public_context ≡ ok message
      → In addr addrs
      → In (i, item) batch.new_sessions
      → build_encrypted_attester_response c x
          (draws i)
          i
          item
          batch.root
          batch.leaves
          key
          batch.public_context
        ≡ ok r
      → (before : List (Action c)) × (after : List (Action c)) × ((send_batch c x draws key addrs
            batch).0
          ≡ before ++ after)
        × In (publish addr message) before
        × In (send_response item.socket r.encrypted) after
  unfolding publish_public_context_to_all
  send_batch-published_first draws key addrs batch message addr i item r done encoded wanted inside
        built =
      let stages = send_batch-Stages draws key addrs batch done in
      (
        stages.old ++ (stages.contexts ++ stages.published),
        stages.new,
        stages.actions_eq ∙ simp (append_assoc, append-nil) refl,
        In-right _ stages.old _ (
            In-right _ stages.contexts stages.published (
              rw (sym (ok_inj (rw encoded at stages.published_eq)))
                (In-map (λ (a : Bytes). publish a message) addr addrs wanted))),
        In-responses draws batch.new_sessions batch.root batch.leaves key batch.public_context i
            item r stages.new inside built stages.new_eq,
      )
