-- ===== src/Workflows/Sending/Targets.antt =====
-- The conversations that messages go to (`resolveWorkflowConversation`,
-- `resolveTriggerChannelTarget` of src/modules/workflows/workflow-engine.service.ts).
use desk_be.Common.{
  find-holds, String, List, [], ◌∷◌, ◌++◌, Bool, true, false, Option, none, some, str_eq, opt_eq,
  present, coalesce, get_or, all, find, keep, ltb, not, ◌&&◌, if◌then◌else◌, ◌≡◌, refl, sym, ap,
  ◌∙◌, eq_refl, Bool-cases, inl, inr, arith,
}
use desk_be.Workflows.World.{Context}
use desk_be.Workflows.Delivery.{specific_channel_id}
use desk_be.Workflows.Sending.{
  Chat, Inbox, Target, channel, nowhere, is_chat_of, latest, scoped_chat, resolve_conversation,
  save, found_or_created, opened, ensure_chat, chat_channel, no_chat, new_chat, contact_is_open,
  moved, trigger_target, specific_target,
}

-- what the two ways of a test give
chosen :
    {A : Type 0} (p : A → Bool) (b : Bool) (x y : A) (a : A)
    → p x ≡ true
    → p y ≡ true
    → (if b then some x else some y) ≡ some a
    → p a ≡ true
chosen p true x y a h k e = ap (λ o. p (get_or o x)) (sym e) ∙ h
chosen p false x y a h k e = ap (λ o. p (get_or o y)) (sym e) ∙ k

latest-meets :
    (p : Chat → Bool) (chats : List Chat) (chat : Chat)
    → all p chats ≡ true
    → latest chats ≡ some chat
    → p chat ≡ true
unfolding latest
latest-meets p [] chat h e = ground (arith, e)
latest-meets p (x ∷ xs) chat h e =
    by_rest (latest xs) (λ t. latest-meets p xs t (ground (arith, h))) e
  where
    by_rest :
        (o : Option Chat)
        → ((t : Chat) → o ≡ some t → p t ≡ true)
        → elim o [
          | none ↦ some x
          | some t ↦ if ltb x.updated_at t.updated_at then some t else some x
        ]
          ≡ some chat
        → p chat ≡ true
    by_rest none rest e = ap (λ o. p (get_or o x)) (sym e) ∙ ground (arith, h)
    by_rest (some t) rest e =
        chosen p (ltb x.updated_at t.updated_at) t x chat (rest t refl) (ground (arith, h)) e

all-keep : (p : Chat → Bool) (chats : List Chat) → all p (keep p chats) ≡ true
all-keep p [] = refl
all-keep p (x ∷ xs) = elim (Bool-cases (p x)) [
  | inl e ↦ rw (e, e) (all-keep p xs)
  | inr e ↦ rw (e) (all-keep p xs)
]

second : (a b : Bool) → (a && b) ≡ true → b ≡ true
second true b h = h
second false b h = ground (arith, h)

pub resolve_conversation-is_chat_of :
    (c : Context) (i : Inbox) (chat : Chat)
    → resolve_conversation c i ≡ some chat
    → is_chat_of c chat ≡ true
unfolding resolve_conversation scoped_chat
resolve_conversation-is_chat_of c i chat h = by_scope (scoped_chat c i) refl h
  where
    own :
        (o : Option String)
        → (t : Chat)
        → elim o [
          | none ↦ none
          | some id ↦ find (λ chat. str_eq chat.id id && is_chat_of c chat) i.chats
        ]
          ≡ some t
        → is_chat_of c t ≡ true
    own none t e = ground (arith, e)
    own (some id) t e =
        second (str_eq t.id id) (is_chat_of c t)
          (find-holds (λ chat. str_eq chat.id id && is_chat_of c chat) i.chats t e)

    by_scope :
        (o : Option Chat)
        → scoped_chat c i ≡ o
        → coalesce o (latest (keep (is_chat_of c) i.chats)) ≡ some chat
        → is_chat_of c chat ≡ true
    by_scope none e k =
        latest-meets (is_chat_of c) (keep (is_chat_of c) i.chats) chat
          (all-keep (is_chat_of c) i.chats) k
    by_scope (some t) e k =
        ap (λ o. is_chat_of c (get_or o t)) (sym k) ∙ own (present c.conversation_id) t e

-- the channel of the chat that triggered a run
unfoldable pub trigger_channel_of : Context → Inbox → Option String
trigger_channel_of c i = elim (resolve_conversation c i) [
  | none ↦ none
  | some chat ↦ chat_channel c (some chat)
]

module _ (c : Context) (i : Inbox) where
  -- over a channel to a conversation of the contact, before anything is sent
  abbrev pub IsTarget : String → Target → Type 0
  IsTarget id (channel x p) =
      (x ≡ id)
      × (is_chat_of c p.chat ≡ true)
      × (p.context.workspace_id ≡ c.workspace_id)
      × (p.inbox.outgoing ≡ i.outgoing)
  IsTarget id (nowhere reason) = true ≡ false

  -- a target over the channel that there is, if any
  abbrev pub Fits : Option String → Target → Type 0
  Fits none t = t ≡ no_chat
  Fits (some id) t = IsTarget id t

  moved-IsTarget :
      (id : String) (chat : Chat)
      → is_chat_of c chat ≡ true
      → IsTarget id (channel id (moved chat c i))
  unfolding moved save
  moved-IsTarget id chat h = elim (Bool-cases (opt_eq c.conversation_id chat.id)) [
    | inl e ↦ rw (e) (refl, h, refl, refl)
    | inr e ↦ rw (e) (refl, h, refl, refl)
  ]

  pub trigger_target-Fits : Fits (trigger_channel_of c i) (trigger_target c i)
  unfolding trigger_target trigger_channel_of
  trigger_target-Fits = by_chat (resolve_conversation c i) (resolve_conversation-is_chat_of c i)
    where
      by_id :
          (chat : Chat) (o : Option String)
          → is_chat_of c chat ≡ true
          → Fits o (elim o [ none ↦ no_chat | some id ↦ channel id (moved chat c i) ])
      by_id chat none h = refl
      by_id chat (some id) h = moved-IsTarget id chat h

      by_chat :
          (o : Option Chat)
          → ((chat : Chat) → o ≡ some chat → is_chat_of c chat ≡ true)
          → Fits
              (elim o [ none ↦ none | some chat ↦ chat_channel c (some chat) ])
              (elim o [
                | none ↦ no_chat
                | some chat ↦ elim (chat_channel c (some chat)) [
                  | none ↦ no_chat
                  | some id ↦ channel id (moved chat c i)
                ]
              ])
      by_chat none h = refl
      by_chat (some chat) h = by_id chat (chat_channel c (some chat)) (h chat refl)

  abbrev IsFound : Chat × Inbox → Type 0
  IsFound r = (is_chat_of c r.0 ≡ true) × (r.1.outgoing ≡ i.outgoing)

  found_or_created-IsFound : (fresh : String) → IsFound (found_or_created fresh c i)
  unfolding found_or_created
  found_or_created-IsFound fresh =
      by_chat (resolve_conversation c i) (resolve_conversation-is_chat_of c i)
    where
      by_chat :
          (o : Option Chat)
          → ((chat : Chat) → o ≡ some chat → is_chat_of c chat ≡ true)
          → IsFound (elim o [
            | some chat ↦ (chat, i)
            | none ↦ (new_chat fresh c i, record i { chats = i.chats ++ new_chat fresh c i ∷ [] })
          ])
      by_chat none h = (ground (arith, eq_refl c.workspace_id, eq_refl c.contact_id), refl)
      by_chat (some chat) h = (h chat refl, refl)

  opened-outgoing :
      (opens : Bool) (d : Context) (j : Inbox) (changed : Bool)
      → ((opened opens d j changed).0.0.workspace_id ≡ d.workspace_id)
        × ((opened opens d j changed).0.1.outgoing ≡ j.outgoing)
  unfolding opened
  opened-outgoing opens d j changed = elim (Bool-cases (opens && not (contact_is_open d))) [
    | inl e ↦ rw (e) (refl, refl)
    | inr e ↦ rw (e) (refl, refl)
  ]

  save-outgoing :
      (saves : Bool) (d : Context) (j : Inbox)
      → (if saves then save d j else j).outgoing ≡ j.outgoing
  unfolding save
  save-outgoing true d j = refl
  save-outgoing false d j = refl

  pub specific_target-IsTarget :
      (fresh : String) (o : Option String) (id : String)
      → specific_channel_id o ≡ some id
      → IsTarget id (specific_target fresh o c i)
  unfolding specific_target ensure_chat
  specific_target-IsTarget fresh o id h =
      let (chat, j) = found_or_created fresh c i in
      let named : Context = record c { conversation_id = some chat.id } in
      let changed = not (opt_eq c.conversation_id chat.id) in
      let r = opened true named j changed in
      let same = opened-outgoing true named j changed in
      rw (specific_target, h)
        (
          refl,
          (found_or_created-IsFound fresh).0,
          same.0,
          save-outgoing (r.1 && true) r.0.0 r.0.1 ∙ same.1 ∙ (found_or_created-IsFound fresh).1,
        )
