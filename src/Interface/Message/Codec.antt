-- ===== src/Interface/Message/Codec.antt =====
-- A message that interface/message.c encodes is decoded again.
use phantomid.Common.{
  ℕ, ◌≤◌, ◌≡◌, refl, ap, ◌∙◌, true, ◌++◌, some, arith, leb, ltb, ◌>>=◌, length, length-append, drop,
  take-append_of_eq, length-drop, false,
}
use phantomid.Common.CString.{Bytes}
use phantomid.Interface.Message.{Message, MessageContext, memcpy, encode_message, decode_message}

-- The two arrays of a message have their 64 bytes.
pub record IsMessage (m : Message) : Type 0 where
  pub source_size : length m.source ≡ 64
  pub target_size : length m.target ≡ 64

-- A message fills its image, and is read back from it.
module _ (size : ℕ) (image : Message → Bytes) (parse : Bytes → Message)
    (length-image : (m : Message) → IsMessage m → length (image m) ≡ size)
    (parse-image : (m : Message) → IsMessage m → parse (image m) ≡ m) where
  -- Let the layout fill the bytes of a message's image and let the image be read back. Encoding a
  -- message, whose arrays have their 64 bytes, into a buffer with room for it succeeds, keeps the
  -- buffer's length and gives the size of a message; decoding what was written with that size
  -- succeeds and gives the message.
  pub decode_message-encode_message :
      (ctx : MessageContext) (message old : Message) (buffer : Bytes) (room : ℕ)
      → IsMessage message
      → size ≤ room
      → room ≤ length buffer
      → (written : Bytes) × (encode_message size image parse
            (some ctx)
            (some message)
            (some buffer)
            (some room)
          ≡ some (true, some written, some size))
        × (decode_message size image parse (some ctx) (some written) size (some old)
            ≡ some (true, some message))
        × (length written ≡ length buffer)
  unfolding encode_message decode_message memcpy
  decode_message-encode_message ctx message old buffer room sound fits inside =
      let image_size = length-image message sound in
      let written = image message ++ drop (length (image message)) buffer in
      let e1 : ltb room size ≡ false = ground arith in
      let e2 : leb (length (image message)) (length buffer) ≡ true = ground (arith, image_size) in
      let e3 : ltb size size ≡ false = ground arith in
      let long : length written ≡ length buffer = omega (
        arith,
        length-append (image message) (drop (length (image message)) buffer),
        length-drop (length (image message)) buffer,
        image_size,
      ) in
      let e4 : ltb (length written) size ≡ false = ground (arith, long) in
      (
        written,
        rw e1 (rw (e2, ◌>>=◌) refl),
        rw e3 (
            rw e4 (
              ap (λ b. some (true, some (parse b)))
                (take-append_of_eq (image message) _ size (image_size))
              ∙ ap (λ m. some (true, some m)) (parse-image message sound))),
        long,
      )
