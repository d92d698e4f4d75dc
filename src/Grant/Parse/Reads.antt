-- ===== src/Grant/Parse/Reads.antt =====
-- packages/beckn-schemas/src/grant.ts: what the schema of a request for a grant reads of a value.
use beckn_data_commons.Base.{
  ℕ, ◌<◌, String, true, Option, none, some, List, [], ◌∷◌, ◌≡◌, All, contains,
}
use beckn_data_commons.Json.{Json, obj, Fields, get, keys}
use beckn_data_commons.Zod.{Zod, optional, string}
use beckn_data_commons.Domain.{license_class}
use beckn_data_commons.Grant.Types.{Grantee, Provider, ResourceRef, IssueGrantRequest}

-- A value is an object that has no other properties.
pub record HasOnly (allowed : List String) (v : Json) : Type 0 where
  pub fields : Fields
  pub is : v ≡ obj fields
  pub only : All (λ k. contains k allowed ≡ true) (keys fields)

abbrev GranteeRead : Json → Grantee → Type 0
GranteeRead v g =
    HasOnly ("id" ∷ "publicKey" ∷ []) v
    × (string (get "id" v) ≡ some g.id)
    × (optional string (get "publicKey" v) ≡ some g.public_key)

abbrev ResourceRead : Json → ResourceRef → Type 0
ResourceRead v r =
    HasOnly ("resourceId" ∷ "offerId" ∷ []) v
    × (string (get "resourceId" v) ≡ some r.resource_id)
    × (string (get "offerId" v) ≡ some r.offer_id)

abbrev ProviderRead : Json → Provider → Type 0
ProviderRead v p =
    HasOnly ("bppId" ∷ "bppUri" ∷ []) v
    × (string (get "bppId" v) ≡ some p.bpp_id)
    × (string (get "bppUri" v) ≡ some p.bpp_uri)

-- a number of seconds is positive, where it is given
abbrev IsPositive : Option ℕ → Type 0
IsPositive none = Unit
IsPositive (some n) = 0 < n

module _ (zod : Zod) where
  open zod use {uuid, url}

  -- What is read of a value that the schema accepts, and what the schema asks of it.
  pub record IsRead (v : Json) (r : IssueGrantRequest) : Type 0 where
    pub only :
        HasOnly
          ("grantee" ∷ "provider" ∷ "resource" ∷ "scope" ∷ "licenseClass" ∷ "purpose"
            ∷ "transactionId" ∷ "ttlSeconds" ∷ [])
          v
    pub grantee : GranteeRead (get "grantee" v) r.grantee
    pub provider : ProviderRead (get "provider" v) r.provider
    pub resource : ResourceRead (get "resource" v) r.resource
    pub scope_only : HasOnly ("kind" ∷ "fields" ∷ "maxDownloads" ∷ []) (get "scope" v)
    pub license : license_class (get "licenseClass" v) ≡ some r.license
    pub purpose : string (get "purpose" v) ≡ some r.purpose
    pub transaction_id : string (get "transactionId" v) ≡ some r.transaction_id
    pub ttl : IsPositive r.ttl_seconds
