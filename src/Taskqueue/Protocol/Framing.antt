-- ===== src/Taskqueue/Protocol/Framing.antt =====
-- broker/protocol.py: what is read is what was sent.
use container_platform.Prelude.{
  ℕ, zero, suc, ◌≤◌, ◌≡◌, refl, ap, ◌∙◌, true, false, Option, some, List, [], ◌∷◌, ◌++◌, map,
  append_assoc, arith, length, take, drop, All, ltb, length-append, take-append, drop-append,
}
use container_platform.Taskqueue.Protocol.{
  magic, max_message_bytes, Result, ok, err, pack, unpack_from_4, bytes_eq, Socket, recv_exactly,
  encode_message, sent_bytes, message_of, read_body_of, read_body, read_after, read_message,
}
use container_platform.Taskqueue.Protocol.Receiving.{recv_exactly_lem}

module _ {M : Type 0} (dumps : M → List ℕ) (loads : List ℕ → Option M) where
  -- The messages that can be sent: their text is read back, and is not too large.
  abbrev pub IsSendable : M → Type 0
  IsSendable m = (loads (dumps m) ≡ some m) × (length (dumps m) ≤ max_message_bytes)

  frame : M → List ℕ
  frame m = magic ++ pack (length (dumps m)) ++ dumps m

  encode_message-frame : (m : M) → IsSendable m → encode_message dumps loads m ≡ ok (frame m)
  unfolding encode_message frame
  encode_message-frame m h =
      let test : ltb max_message_bytes (length (dumps m)) ≡ false = ground (arith, h.1) in
      rw test refl

  header : M → List ℕ
  header m = magic ++ pack (length (dumps m))

  unpack_from_4-header : (m : M) → IsSendable m → unpack_from_4 (header m) ≡ length (dumps m)
  unfolding header unpack_from_4 pack
  unpack_from_4-header m h = let few = h.1 in let L = length (dumps m) in omega arith

  message_of_lem : (m : M) → IsSendable m → message_of dumps loads (dumps m) ≡ ok m
  unfolding message_of
  message_of_lem m h = rw (h.0, message_of) refl

  read_after_lem :
      (a : Socket × Result (List ℕ)) (bytes : List ℕ)
      → a.1 ≡ ok bytes
      → read_after dumps loads a ≡ read_body dumps loads a.0 bytes
  unfolding read_after
  read_after_lem (s, ok b) bytes e = let same : b ≡ bytes = cc in ap (read_body dumps loads s) same
  read_after_lem (s, err x) bytes e = cc

  read_body_of_lem :
      (a : Socket × Result (List ℕ)) (bytes : List ℕ)
      → a.1 ≡ ok bytes
      → read_body_of dumps loads a ≡ (a.0, message_of dumps loads bytes)
  unfolding read_body_of
  read_body_of_lem (s, ok b) bytes e =
      let same : b ≡ bytes = cc in ap (λ x. (s, message_of dumps loads x)) same
  read_body_of_lem (s, err x) bytes e = cc

  read_body-header :
      (m : M) (s : Socket)
      → IsSendable m
      → read_body dumps loads s (header m)
        ≡ read_body_of dumps loads (recv_exactly (length (dumps m)) s)
  read_body-header m s h =
      let starts : bytes_eq (take 4 (header m)) magic ≡ true = unfold bytes_eq header in refl in
      let size = unpack_from_4-header m h in
      let test : ltb max_message_bytes (length (dumps m)) ≡ false = ground (arith, h.1) in
      unfold read_body in rw starts (rw size (rw test refl))

  read_message_lem :
      (m : M) (more : List ℕ) (s : Socket)
      → IsSendable m
      → s.stream ≡ frame m ++ more
      → ((read_message dumps loads s).1 ≡ ok m) × ((read_message dumps loads s).0.stream ≡ more)
  read_message_lem m more s h sent =
      let shape : s.stream ≡ header m ++ (dumps m ++ more) =
        sent ∙ (unfold frame header pack in refl) in
      let eight : length (header m) ≡ 8 = unfold header pack in refl in
      let enough : 8 ≤ length s.stream =
        omega (arith, ap length shape, length-append (header m) (dumps m ++ more)) in
      let (got, left) = recv_exactly_lem 8 s enough in
      let read : take 8 s.stream ≡ header m =
        ap (take 8) shape ∙ (rw eight at (take-append (header m) (dumps m ++ more))) in
      let rest : drop 8 s.stream ≡ dumps m ++ more =
        ap (drop 8) shape ∙ (rw eight at (drop-append (header m) (dumps m ++ more))) in
      let a = recv_exactly 8 s in
      let here : a.0.stream ≡ dumps m ++ more = left ∙ rest in
      let L = length (dumps m) in
      let there : L ≤ length a.0.stream =
        omega (arith, ap length here, length-append (dumps m) more) in
      let (body, after) = recv_exactly_lem L a.0 there in
      let b = recv_exactly L a.0 in
      let text : b.1 ≡ ok (dumps m) =
        body ∙ ap (λ x. ok (take L x)) here ∙ ap ok (take-append (dumps m) more) in
      let run : read_message dumps loads s ≡ (b.0, ok m) =
        unfold read_message in
        (read_after_lem a (header m) (got ∙ ap ok read)
          ∙ read_body-header m a.0 h
          ∙ read_body_of_lem b (dumps m) text
          ∙ ap (λ r. (b.0, r)) (message_of_lem m h)) in
      rw run (refl, after ∙ ap (drop L) here ∙ drop-append (dumps m) more)

  -- The bytes that `write_message` sends for messages, one after the other.
  unfoldable pub frames : List M → List ℕ
  unfolding encode_message sent_bytes
  frames [] = []
  frames (m ∷ ms) = sent_bytes (encode_message dumps loads m) ++ frames ms

  frames-cons :
      (m : M) (ms : List M) (more : List ℕ)
      → IsSendable m
      → frames (m ∷ ms) ++ more ≡ frame m ++ (frames ms ++ more)
  frames-cons m ms more h =
      let first : frames (m ∷ ms) ≡ frame m ++ frames ms =
        unfold frames in ap (λ r. sent_bytes r ++ frames ms) (encode_message-frame m h) ∙ sent_ok in
      rw first (append_assoc (frame m) (frames ms) more)
    where
      sent_ok : sent_bytes (ok (frame m)) ++ frames ms ≡ frame m ++ frames ms
      sent_ok = unfold sent_bytes in refl

  unfoldable pub read_messages : ℕ → Socket → Socket × List (Result M)
  unfolding read_message
  read_messages zero s = (s, [])
  read_messages (suc n) s =
      let (after, m) = read_message dumps loads s in
      let rest = read_messages n after in (rest.0, m ∷ rest.1)

  read_messages-suc :
      (n : ℕ) (s : Socket)
      → read_messages (suc n) s ≡ (
        (read_messages n (read_message dumps loads s).0).0,
        (read_message dumps loads s).1 ∷ (read_messages n (read_message dumps loads s).0).1,
      )
  unfolding read_messages
  read_messages-suc n s = refl

  -- What is read is what was sent: of the frames of messages whose text is read back and not too
  -- large, with anything behind them, `read_message` reads the messages one by one in their order
  -- and leaves the rest, in whatever pieces the bytes arrive.
  pub read_messages-frames :
      (ms : List M) (more : List ℕ) (s : Socket)
      → All IsSendable ms
      → s.stream ≡ frames ms ++ more
      → ((read_messages (length ms) s).1 ≡ map ok ms)
        × ((read_messages (length ms) s).0.stream ≡ more)
  read_messages-frames [] more s h sent = unfold read_messages frames in (refl, sent)
  read_messages-frames (m ∷ ms) more s h sent =
      let shape : s.stream ≡ frame m ++ (frames ms ++ more) = sent ∙ frames-cons m ms more h.0 in
      let (got, left) = read_message_lem m (frames ms ++ more) s h.0 shape in
      let rest = read_messages-frames ms more (read_message dumps loads s).0 h.1 left in
      rw (read_messages-suc (length ms) s) (rw got (ap (λ rs. ok m ∷ rs) rest.0, rest.1))
