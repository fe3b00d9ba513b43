-- ===== src/Producer/Publish/Delivery.antt =====
-- What a call of `publish` hands to Kafka, and when it returns:
-- dz_5/producer-service/app/kafka_client.py.
use making_soa_homework.Base.{
  ℕ, ◌+◌, ◌≤◌, ◌<◌, ◌≡◌, refl, ap, ◌∙◌, sym, subst, true, false, none, [], ◌∷◌, ◌++◌, String, All,
  arith, length, length-append,
}
use making_soa_homework.Base.Retry.{
  is_ok, Returned, five_attempts, five_attempts-ok, five_attempts-is_ok_kept, five_attempts-le,
}
use making_soa_homework.Base.Exec.{Result, ok, err}
use making_soa_homework.Producer.Events.{Stamp, MovieEventIn, AvroDict, to_avro_dict}
use making_soa_homework.Producer.Registry.{Bytes}
use making_soa_homework.Producer.Publish.{
  Attempt, PublishError, Publisher, Sent, partition_key, is_failed, publish_once, publish,
}
use making_soa_homework.Producer.Publish.Attempts.{
  CacheFits, AnswerFits, encode-CacheFits, encodes, publish_once-registry, publish_once-ok,
  publish_once-key, Readable, Adds, encode-Readable, publish_once-Adds, publish_once-length,
  publish_once-hands,
}

module _ {Schema : Type 0} (write : Schema → AvroDict → Result String Bytes) where
  -- What a call that returns has done.
  pub record Delivered (key : String) (payload : AvroDict) (base : Sent)
      (run : Result PublishError String × Publisher Schema) : Type 0 where
    pub returns : run.0 ≡ ok key
    pub new : Sent
    pub since : run.1.sent ≡ new ++ base
    pub some_record : 1 ≤ length new
    pub short : length new ≤ 5
    pub readable : All (Readable write key payload) new

  keyed :
      (key : String) (r : Result PublishError String × Publisher Schema)
      → is_ok r.0 ≡ true
      → ((m : String) (s : Publisher Schema) → r ≡ (ok m, s) → m ≡ key)
      → r.0 ≡ ok key
  keyed key (ok m, s) h same = ap ok (same m s refl)
  keyed key (err e, s) h same = cc

  returned :
      (r : Result PublishError String × Publisher Schema) (key : String)
      → r.0 ≡ ok key
      → r ≡ (ok key, r.1)
  returned (r, s) key h = ap (λ q. (q, s)) h

  delivered :
      (key : String) (payload : AvroDict) (base : Sent) (at : ℕ → Attempt Schema)
      (call : Result PublishError String × Publisher Schema)
      → call.0 ≡ ok key
      → Returned
          (Adds write key payload base)
          (λ i. publish_once write key payload (at i))
          key
          call.1
          5
      → length call.1.sent ≤ 5 + length base
      → Delivered key payload base call
  delivered key payload base at call back r sizes =
      let (message, made, e) =
        publish_once-hands write key payload (at r.attempt) r.from key (ap (λ p. p.0) r.returns) in
      let new = (key, message) ∷ r.kept.new in
      let after : call.1.sent ≡ (key, message) ∷ r.from.sent =
        ap (λ p. p.1.sent) (sym r.returns) ∙ e in
      let since : call.1.sent ≡ new ++ base = after ∙ ap (λ l. (key, message) ∷ l) r.kept.since in
      let sum : length call.1.sent ≡ length new + length base =
        ap length since ∙ length-append new base in
      record {
        returns = back;
        new = new;
        since = since;
        some_record = omega arith;
        short = omega (arith, sum, sizes);
        readable = (
          encode-Readable write key payload (at r.attempt).answer r.from.registry message made,
          r.kept.readable,
        );
      }

  -- If in one of the first five attempts the registry answers, Kafka takes the record and the callback
  -- is given no error, and if the payload of the event is written under every schema that the
  -- registry's client keeps or may get, then a call returns the partition key of the event. It has
  -- handed at least one record and at most five to Kafka, each under that key, and each is read as
  -- the identifier of a schema and the payload that is written under it.
  pub publish-Delivered :
      (millis : Stamp → ℕ) (field : String) (e : MovieEventIn) (at : ℕ → Attempt Schema)
      (s : Publisher Schema) (k : ℕ) (q : ℕ × Schema)
      → CacheFits write (to_avro_dict millis e) s.registry
      → ((i : ℕ) → AnswerFits write (to_avro_dict millis e) (at i).answer)
      → k < 5
      → (at k).answer ≡ ok q
      → (at k).refused ≡ none
      → is_failed (at k).report ≡ false
      → Delivered
          (partition_key field e)
          (to_avro_dict millis e)
          s.sent
          (publish write millis field e at s)
  unfolding publish
  publish-Delivered millis field e at s k q cached answers lt answered taken fine =
      let key = partition_key field e in
      let payload = to_avro_dict millis e in
      let run = λ (i : ℕ). publish_once write key payload (at i) in
      let call = five_attempts run s in
      let done =
        five_attempts-is_ok_kept (λ t. CacheFits write payload t.registry) run
          (λ j t kept.
            subst (CacheFits write payload) (sym (publish_once-registry write key payload (at j) t))
              (encode-CacheFits write (at j).answer payload t.registry (answers j) kept))
          k s cached lt
          (λ t kept. ap is_ok (
            publish_once-ok write key payload (at k) t
              (encodes write payload (at k).answer q t.registry answered (answers k) kept) taken
              fine)) in
      let start : Adds write key payload s.sent s = record {
        new = [];
        since = refl;
        readable = tt;
      } in
      let keeps =
        λ (j : ℕ) (t u : Publisher Schema) (f : PublishError)
            (kept : Adds write key payload s.sent t) (h : run j t ≡ (err f, u)).
          subst (Adds write key payload s.sent) (ap (λ r. r.1) h)
            (publish_once-Adds write key payload s.sent (at j) t kept) in
      let back = keyed key call done (λ m u h.
        let r = five_attempts-ok (Adds write key payload s.sent) run s start keeps h in
        publish_once-key write key payload (at r.attempt) r.from m (ap (λ p. p.0) r.returns)) in
      let r =
        five_attempts-ok (Adds write key payload s.sent) run s start keeps
          (returned call key back) in
      let sizes =
        five_attempts-le (λ t. length t.sent) run s
          (λ j t. publish_once-length write key payload (at j) t) in
      delivered key payload s.sent at call back r sizes
