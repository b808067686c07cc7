-- ===== src/Message/RoundTrip/Texts.antt =====
-- The string members of a message are read as they were written (client-cpp/src/message.cpp).
use cross_language_lan_chatr.Prelude.{◌≡◌, refl, sym, ap, List, [], ◌∷◌, Bytes, codes, same}
use cross_language_lan_chatr.Json.{Members, get}
use cross_language_lan_chatr.Message.{Header, empty_header, Error, fine}
use cross_language_lan_chatr.Message.Fields.{Field, set_text, read_texts, texts}
use cross_language_lan_chatr.Message.RoundTrip.Written.{text_option, built, got, with_texts}

-- The fields are read one after another, each as the text that it holds.
abbrev Reads : List Field → Members → Header → Header → Type 0
Reads [] ms m m' = m ≡ m'
Reads ((key, set) ∷ fields) ms m m' =
    (value : Bytes) × (get key ms ≡ text_option value)
    × (set m [] ≡ m)
    × Reads fields ms (set m value) m'

set_text-option :
    (e : Error) (set : Header → Bytes → Header) (m : Header) (value : Bytes)
    → set m [] ≡ m
    → set_text e set m (text_option value) ≡ fine (set m value)
unfolding text_option
set_text-option e set m [] h = ap fine (sym h)
set_text-option e set m (c ∷ cs) h = refl

pub read_texts-Reads :
    (e : Error) (fields : List Field) (ms : Members) (m m' : Header)
    → Reads fields ms m m'
    → read_texts e fields ms m ≡ fine m'
unfolding read_texts
read_texts-Reads e [] ms m m' h = ap fine h
read_texts-Reads e ((key, set) ∷ fields) ms m m' (value, got, neutral, rest) =
    rw (got, set_text-option e set m value neutral)
      (read_texts-Reads e fields ms (set m value) m' rest)

pub texts-Reads :
    (m : Header) → Reads texts (built m) (record empty_header { type = m.type }) (with_texts m)
unfolding same text_option
texts-Reads m = (
  m.username,
  got (codes "username") m,
  refl,
  (
    m.protocol_version,
    got (codes "protocol_version") m,
    refl,
    (
      m.message_id,
      got (codes "message_id") m,
      refl,
      (
        m.command_id,
        got (codes "command_id") m,
        refl,
        (
          m.delivery_state,
          got (codes "delivery_state") m,
          refl,
          (
            m.user_code,
            got (codes "user_code") m,
            refl,
            (
              m.target_user_code,
              got (codes "target_user_code") m,
              refl,
              (
                m.room,
                got (codes "room") m,
                refl,
                (
                  m.content,
                  got (codes "content") m,
                  refl,
                  (
                    m.group_id,
                    got (codes "group_id") m,
                    refl,
                    (
                      m.key_package,
                      got (codes "key_package") m,
                      refl,
                      (
                        m.proposal_id,
                        got (codes "proposal_id") m,
                        refl,
                        (
                          m.action,
                          got (codes "action") m,
                          refl,
                          (
                            m.proposal,
                            got (codes "proposal") m,
                            refl,
                            (
                              m.commit,
                              got (codes "commit") m,
                              refl,
                              (
                                m.welcome,
                                got (codes "welcome") m,
                                refl,
                                (
                                  m.welcome_digest,
                                  got (codes "welcome_digest") m,
                                  refl,
                                  (
                                    m.attachment_id,
                                    got (codes "attachment_id") m,
                                    refl,
                                    (
                                      m.upload_id,
                                      got (codes "upload_id") m,
                                      refl,
                                      (
                                        m.ciphertext,
                                        got (codes "ciphertext") m,
                                        refl,
                                        (
                                          m.cipher_sha256,
                                          got (codes "cipher_sha256") m,
                                          refl,
                                          (
                                            m.expires_at,
                                            got (codes "expires_at") m,
                                            refl,
                                            (
                                              m.created_at,
                                              got (codes "created_at") m,
                                              refl,
                                              (
                                                m.before_message_id,
                                                got (codes "before_message_id") m,
                                                refl,
                                                (
                                                  m.search_query,
                                                  got (codes "search_query") m,
                                                  refl,
                                                  refl,
                                                ),
                                              ),
                                            ),
                                          ),
                                        ),
                                      ),
                                    ),
                                  ),
                                ),
                              ),
                            ),
                          ),
                        ),
                      ),
                    ),
                  ),
                ),
              ),
            ),
          ),
        ),
      ),
    ),
  ),
)
