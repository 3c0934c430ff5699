-- ===== src/Provider/Conversation.antt =====
-- What of a conversation reaches Anthropic and Gemini, and what of their answers the client.
use llm_proxy.Prelude.{
  String, ◌≡◌, refl, sym, ap, ◌∙◌, subst, inl, inr, Bool, true, false, ◌||◌, some, List, [], ◌∷◌,
  ◌++◌, map, append_assoc, append-nil, if◌then◌else◌, Bool-cases, filter_by, ◌==◌, eq_of_beq,
  pair_eq, string_eq, nat_eq,
}
use llm_proxy.Json.{Value, null, boolean, number, string, array, object}
use llm_proxy.Provider.{Message, ChatCompletionRequest, Wire, joined_system, system_part, text_of}
use llm_proxy.Provider.Anthropic
use llm_proxy.Provider.Gemini
use mathlib.Core.Option

-- Gemini's name for a role.
abbrev pub gemini_role : String → String
gemini_role role = if role == "assistant" then "model" else role

abbrev pub content_of : Anthropic.AnthropicMessage → Gemini.GeminiContent
content_of m = record { role = gemini_role m.role; parts = m.content ∷ [] }

system_no_turn : (r : String) → (r == "system") ≡ true → (r == "user" || r == "assistant") ≡ false
system_no_turn r h =
    subst (λ x. (x == "user" || x == "assistant") ≡ false) (sym (eq_of_beq r "system" h)) refl

gemini_user : (r : String) → (r == "user") ≡ true → "user" ≡ gemini_role r
gemini_user r h = subst (λ x. "user" ≡ gemini_role x) (sym (eq_of_beq r "user" h)) refl

system_part-append :
    {N : Type 0} (v : Value N) (parts rest : List String)
    → system_part v parts ++ rest ≡ parts ++ (system_part v [] ++ rest)
system_part-append (string s) parts rest = append_assoc parts (s ∷ []) rest
system_part-append null parts rest = refl
system_part-append (boolean b) parts rest = refl
system_part-append (number n) parts rest = refl
system_part-append (array xs) parts rest = refl
system_part-append (object fs) parts rest = refl

module _ {N T W C : Type 0} (wire : Wire N W C) where
  abbrev pub is_system : Message N T → Bool
  is_system m = m.role == "system"

  abbrev pub is_turn : Message N T → Bool
  is_turn m = m.role == "user" || m.role == "assistant"

  -- The texts of the system messages that are texts.
  abbrev pub system_texts : List (Message N T) → List String
  system_texts [] = []
  system_texts (m ∷ ms) =
      let rest = system_texts ms in if is_system m then system_part m.content [] ++ rest else rest

  abbrev pub turn : Message N T → Anthropic.AnthropicMessage
  turn m = record { role = m.role; content = text_of wire m.content }

  gather_anthropic :
      (texts : List String) (turns : List Anthropic.AnthropicMessage) (ms : List (Message N T))
      → Anthropic.gather wire texts turns ms
        ≡ (texts ++ system_texts ms, turns ++ map turn (filter_by is_turn ms))
  unfolding Anthropic.gather
  gather_anthropic texts turns [] = simp append-nil
  gather_anthropic texts turns (m ∷ ms) = elim (Bool-cases (is_system m)) [
    | inl y ↦
        rw (y, system_no_turn m.role y, gather_anthropic (system_part m.content texts) turns ms)
          (ap (λ (x : List String). (x, turns ++ map turn (filter_by is_turn ms)))
            (system_part-append m.content texts (system_texts ms)))
    | inr n ↦ elim (Bool-cases (is_turn m)) [
      | inl y ↦
          rw (n, y, gather_anthropic texts (turns ++ turn m ∷ []) ms)
            (ap (λ (x : List Anthropic.AnthropicMessage). (texts ++ system_texts ms, x))
              (append_assoc turns (turn m ∷ []) (map turn (filter_by is_turn ms))))
      | inr k ↦ rw (n, k) (gather_anthropic texts turns ms)
    ]
  ]

  gather_gemini :
      (texts : List String) (contents : List Gemini.GeminiContent) (ms : List (Message N T))
      → Gemini.gather wire texts contents ms
        ≡ (texts ++ system_texts ms, contents ++ map content_of (map turn (filter_by is_turn ms)))
  unfolding Gemini.gather
  gather_gemini texts contents [] = simp append-nil
  gather_gemini texts contents (m ∷ ms) = elim (Bool-cases (is_system m)) [
    | inl y ↦
        rw (y, system_no_turn m.role y, gather_gemini (system_part m.content texts) contents ms)
          (ap
            (λ (x : List String). (x, contents ++ map content_of (map turn (filter_by is_turn ms))))
            (system_part-append m.content texts (system_texts ms)))
    | inr n ↦ elim (Bool-cases (m.role == "user")) [
      | inl y ↦
          rw
            (
              n,
              y,
              gemini_user m.role y,
              gather_gemini texts (contents ++ content_of (turn m) ∷ []) ms,
            )
            (ap (λ (x : List Gemini.GeminiContent). (texts ++ system_texts ms, x))
              (append_assoc contents (content_of (turn m) ∷ [])
                (map content_of (map turn (filter_by is_turn ms)))))
      | inr k ↦ elim (Bool-cases (m.role == "assistant")) [
        | inl y ↦
            let c : Gemini.GeminiContent = record {
              role = "model";
              parts = text_of wire m.content ∷ [];
            } in
            let e : c ≡ content_of (turn m) = rw y refl in
            rw (n, k, y, gather_gemini texts (contents ++ c ∷ []) ms)
              (ap (λ (x : List Gemini.GeminiContent). (texts ++ system_texts ms, x))
                  (append_assoc contents (c ∷ [])
                    (map content_of (map turn (filter_by is_turn ms))))
                ∙ ap
                    (λ (x : Gemini.GeminiContent). (
                      texts ++ system_texts ms,
                      contents ++ x ∷ map content_of (map turn (filter_by is_turn ms)),
                    ))
                    e)
        | inr z ↦ rw (n, k, z) (gather_gemini texts contents ms)
      ]
    ]
  ]

module _ {N F T W C : Type 0} (wire : Wire N W C) where
  -- What is sent to Anthropic and to Gemini of one request is the same conversation: the texts of
  -- the system messages, joined, and the messages of users and of the assistant in their order,
  -- whose role is "model" for Gemini; all other messages are left out. The stop texts are the same.
  pub requests_agree :
      (req : ChatCompletionRequest N F T) (streamed : Bool)
      → let a = Anthropic.openai_to_anthropic_base wire req streamed in
        let g = Gemini.openai_to_gemini wire req in
        (a.messages ≡ map (turn wire) (filter_by (is_turn wire) req.messages))
        × (a.system ≡ joined_system (system_texts wire req.messages))
        × (g.contents ≡ map content_of a.messages)
        × (g.system_instruction ≡ Gemini.instruction a.system)
        × (Option.map (λ c. c.stop_sequences_) g.generation_config ≡ some a.stop_sequences_)
  unfolding Anthropic.openai_to_anthropic_base Gemini.openai_to_gemini
  requests_agree req streamed =
      rw (gather_anthropic wire [] [] req.messages, gather_gemini wire [] [] req.messages)
        (refl, refl, refl, refl, refl)
