-- ===== src/Rules.antt =====
-- quizx/src/basic_rules.rs: for each rule its check, the rule itself, and the checked rule.
pub mod Checked
pub mod Spiders
pub mod Pivot
pub mod Gadgets
pub mod Linked
pub mod Links
pub mod LocalComp
pub mod ColorChange
pub mod Fused
pub mod FuseEdges
pub mod Fusion
