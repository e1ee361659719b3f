-- ===== src/Katello.antt =====
-- src/sourceos_syncd/katello_client.py: what is promoted to the lifecycle environment.
use sourceos_syncd.Prelude.{ℕ, String, Option, List}

pub record KatelloArtifact : Type 0 where
  pub name : String
  pub content_url : String
  pub sha256 : Option String
  pub size_bytes : Option ℕ

pub record ContentViewManifest : Type 0 where
  pub org : String
  pub content_view : String
  pub version : String
  pub lifecycle_env : String
  pub katello_url : String
  pub pulp_content_url : String
  pub nix_cache_url : String
  pub artifacts : List KatelloArtifact
  pub description : String
