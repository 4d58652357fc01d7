-- ===== src/Proto/State/Blocks/Laws.antt =====
-- src/ptp_proto/state.rs: how the lines of a `pmc` output are grouped.
use rs.Prelude.{
  ℕ, ◌≡◌, refl, ◌∙◌, Bool, true, false, List, [], ◌∷◌, ◌++◌, ◌||◌, map, none, some, All, All-map,
  if◌then◌else◌, Bool-cases, inl, inr, append_assoc, append-nil,
}
use rs.Prelude.Text.{
  codes, is_empty, is_whitespace, starts_with, contains, trim, lines, split_whitespace, last,
}
use rs.Proto.State.Blocks.{
  Block, Grouping, close_block, push_line, group_line, group_lines, parse_blocks,
}

-- Blank lines, and lines about what was sent.
abbrev pub is_noise : List ℕ → Bool
is_noise line = is_empty (trim line) || starts_with (trim line) (codes "sending:")

abbrev pub is_response : List ℕ → Bool
is_response line = contains (trim line) (codes "RESPONSE MANAGEMENT")

-- A line that does not start a block.
abbrev pub IsBody : List ℕ → Type 0
IsBody line = (is_noise line ≡ false) → is_response line ≡ false

-- A response: the line that starts it and names its dataset, and the lines up to the next one.
pub record Response : Type 0 where
  pub kind : List ℕ
  pub first : List ℕ
  pub body : List (List ℕ)

record IsReply (r : Response) : Type 0 where
  pub not_noise : is_noise r.first ≡ false
  pub response : is_response r.first ≡ true
  pub named : last (split_whitespace (trim r.first)) ≡ some r.kind
  pub body : All IsBody r.body

abbrev pub response_lines : List Response → List (List ℕ)
response_lines [] = []
response_lines (r ∷ rs) = r.first ∷ (r.body ++ response_lines rs)

-- The lines that are kept of a body, trimmed.
unfoldable pub kept : List (List ℕ) → List (List ℕ)
kept [] = []
kept (line ∷ rest) = let more = kept rest in if is_noise line then more else trim line ∷ more

abbrev pub block_of : Response → Block
block_of r = (r.kind, kept r.body)

group_noise : (g : Grouping) (line : List ℕ) → is_noise line ≡ true → group_line g (trim line) ≡ g
unfolding group_line
group_noise g line e = rw e refl

group_body :
    (g : Grouping) (line : List ℕ)
    → is_noise line ≡ false
    → is_response line ≡ false
    → group_line g (trim line) ≡ push_line g.current_kind (trim line) g
unfolding group_line
group_body g line e h = rw (e, h) refl

-- Before the first response nothing is kept.
group_before :
    (ls rest : List (List ℕ)) (bs : List Block)
    → All IsBody ls
    → group_lines (record { blocks = bs; current_kind = none; current_lines = [] }) (ls ++ rest)
      ≡ group_lines (record { blocks = bs; current_kind = none; current_lines = [] }) rest
unfolding group_lines push_line
group_before [] rest bs h = refl
group_before (l ∷ ls) rest bs (body, more) = elim (Bool-cases (is_noise l)) [
  | inl e ↦
      rw
        (
          group_lines,
          group_noise (record { blocks = bs; current_kind = none; current_lines = [] }) l e,
        )
        (group_before ls rest bs more)
  | inr e ↦
      rw
        (
          group_lines,
          group_body (record { blocks = bs; current_kind = none; current_lines = [] }) l e (body e),
        )
        (group_before ls rest bs more)
]

group_inside :
    (ls rest : List (List ℕ)) (bs : List Block) (kind : List ℕ) (cs : List (List ℕ))
    → All IsBody ls
    → group_lines
        (record { blocks = bs; current_kind = some kind; current_lines = cs })
        (ls ++ rest)
      ≡ group_lines
          (record { blocks = bs; current_kind = some kind; current_lines = cs ++ kept ls })
          rest
unfolding group_lines push_line kept
group_inside [] rest bs kind cs h = rw (append-nil cs) refl
group_inside (l ∷ ls) rest bs kind cs (body, more) = elim (Bool-cases (is_noise l)) [
  | inl e ↦
      rw
        (
          group_lines,
          group_noise (record { blocks = bs; current_kind = some kind; current_lines = cs }) l e,
          e,
        )
        (group_inside ls rest bs kind cs more)
  | inr e ↦
      rw
        (
          group_lines,
          group_body (record { blocks = bs; current_kind = some kind; current_lines = cs }) l e
              (body e),
          e,
        )
        (group_inside ls rest bs kind (cs ++ trim l ∷ []) more
          ∙ rw (append_assoc cs (trim l ∷ []) (kept ls)) refl)
]

abbrev closed : Grouping → List Block
closed g = (close_block g.current_kind g).blocks

group_first :
    (r : Response) (g : Grouping)
    → IsReply r
    → group_line g (trim r.first)
      ≡ record (close_block g.current_kind g) { current_kind = some r.kind }
unfolding group_line
group_first r g h = rw (h.not_noise, h.response, h.named) refl

group_responses :
    (rs : List Response) (bs : List Block) (kind : List ℕ) (cs : List (List ℕ))
    → All IsReply rs
    → closed (
        group_lines
          (record { blocks = bs; current_kind = some kind; current_lines = cs })
          (response_lines rs))
      ≡ bs ++ ((kind, cs) ∷ map block_of rs)
unfolding group_lines close_block
group_responses [] bs kind cs h = refl
group_responses (r ∷ rs) bs kind cs (here, more) =
    rw
      (
        group_lines,
        group_first r (record { blocks = bs; current_kind = some kind; current_lines = cs }) here,
        group_inside r.body (response_lines rs) (bs ++ (kind, cs) ∷ []) r.kind [] here.body,
      )
      (group_responses rs (bs ++ (kind, cs) ∷ []) r.kind (kept r.body) more
        ∙ append_assoc bs ((kind, cs) ∷ []) (block_of r ∷ map block_of rs))

-- Whatever the indentation is.
parse_blocks_of_lines :
    (text : List ℕ) (before : List (List ℕ)) (rs : List Response)
    → All IsBody before
    → All IsReply rs
    → lines text ≡ before ++ response_lines rs
    → parse_blocks text ≡ map block_of rs
unfolding parse_blocks
parse_blocks_of_lines text before rs hb hr e =
    rw (parse_blocks, e, group_before before (response_lines rs) [] hb) (go rs hr)
  where
    go :
        (rs : List Response)
        → All IsReply rs
        → closed (
            group_lines
              (record { blocks = []; current_kind = none; current_lines = [] })
              (response_lines rs))
          ≡ map block_of rs
    go [] h = unfold group_lines close_block in refl
    go (r ∷ rs) (here, more) =
        unfold group_lines close_block in
        rw
          (
            group_lines,
            group_first r (record { blocks = []; current_kind = none; current_lines = [] }) here,
            group_inside r.body (response_lines rs) [] r.kind [] here.body,
          )
          (group_responses rs [] r.kind (kept r.body) more)

-- The layout that the code's documentation describes: the first line is not indented, and the lines
-- after it that are not passed over are, and start no response.
abbrev pub is_indented : List ℕ → Bool
is_indented [] = false
is_indented (c ∷ cs) = is_whitespace c

abbrev pub IsField : List ℕ → Type 0
IsField line = (is_noise line ≡ false) → (is_response line ≡ false) × (is_indented line ≡ true)

pub record IsResponse (r : Response) : Type 0 where
  pub not_noise : is_noise r.first ≡ false
  pub response : is_response r.first ≡ true
  pub not_indented : is_indented r.first ≡ false
  pub named : last (split_whitespace (trim r.first)) ≡ some r.kind
  pub fields : All IsField r.body

IsReply-IsResponse : (r : Response) → IsResponse r → IsReply r
IsReply-IsResponse r h = record {
  not_noise = h.not_noise;
  response = h.response;
  named = h.named;
  body = All-map (λ line field quiet. (field quiet).0) r.body h.fields;
}

-- If the lines of a text are some lines that start no response, followed by responses, each of a
-- first line that is not indented, contains `RESPONSE MANAGEMENT` and ends in the word that names
-- its kind, and of further lines that are blank, start with `sending:`, or are indented and start
-- no response, then the blocks are, in order, one for each response: its kind, and those of its
-- further lines, trimmed, that are not blank and do not start with `sending:`.
pub parse_blocks-lines :
    (text : List ℕ) (before : List (List ℕ)) (rs : List Response)
    → All IsBody before
    → All IsResponse rs
    → lines text ≡ before ++ response_lines rs
    → parse_blocks text ≡ map block_of rs
parse_blocks-lines text before rs hb hr e =
    parse_blocks_of_lines text before rs hb (All-map IsReply-IsResponse rs hr) e
