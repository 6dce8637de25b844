-- ===== src/Gitops.antt =====
-- src/gitops/pr_generator.py: a fix as a pull request of a GitOps repository.
pub mod Texts
pub mod Requests
pub mod Create
pub mod Merges
pub mod Titles
