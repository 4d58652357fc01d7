-- ===== src/Proto/State/Blocks.antt =====
-- src/ptp_proto/state.rs: the blocks of a `pmc` output.
pub mod Laws
use rs.Prelude.{ℕ, Bool, true, false, List, [], ◌∷◌, ◌++◌, ◌||◌, Option, none, some, if◌then◌else◌}
use rs.Prelude.Text.{codes, is_empty, starts_with, contains, trim, lines, split_whitespace, last}

abbrev pub Block : Type 0
Block = List ℕ × List (List ℕ)

-- The variables of `parse_blocks`.
pub record Grouping : Type 0 where
  pub blocks : List Block
  pub current_kind : Option (List ℕ)
  pub current_lines : List (List ℕ)

-- `if let Some(kind) = current_kind.take() { blocks.push((kind, take(&mut current_lines))); }`
unfoldable pub close_block : Option (List ℕ) → Grouping → Grouping
close_block none g = g
close_block (some kind) g = record g {
  blocks = g.blocks ++ (kind, g.current_lines) ∷ [];
  current_lines = [];
}

unfoldable pub push_line : Option (List ℕ) → List ℕ → Grouping → Grouping
push_line none trimmed g = g
push_line (some kind) trimmed g = record g { current_lines = g.current_lines ++ trimmed ∷ [] }

unfoldable pub group_line : Grouping → List ℕ → Grouping
group_line g trimmed =
    if is_empty trimmed || starts_with trimmed (codes "sending:")
    then g
    else if contains trimmed (codes "RESPONSE MANAGEMENT")
    then record (close_block g.current_kind g) { current_kind = last (split_whitespace trimmed) }
    else push_line g.current_kind trimmed g

unfoldable pub group_lines : Grouping → List (List ℕ) → Grouping
group_lines g [] = g
group_lines g (line ∷ rest) = group_lines (group_line g (trim line)) rest

unfoldable pub parse_blocks : List ℕ → List Block
parse_blocks text =
    let g =
      group_lines (record { blocks = []; current_kind = none; current_lines = [] }) (lines text) in
    (close_block g.current_kind g).blocks
