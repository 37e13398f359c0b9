-- ===== src/Bottlerocket/Eks/Fields.antt =====
-- bottlerocket/agents/src/bin/eks-resource-agent/eks_provider.rs: what is read of the description of a cluster,
-- with the address of its DNS service.
use Prim.Native.String.{◌++◌ as concat}
use Prim.Native.Char.{Char, code}
use bottlerocket_test_system.Base.{ℕ, suc, String, Option, List, [], ◌∷◌, ◌==◌, if◌then◌else◌}
use bottlerocket_test_system.Base.Result.{Result, ok, err, ◌>>=◌}
use bottlerocket_test_system.Agents.ResourceAgent.ProviderError.{
  remaining, ProviderError, new_with_context,
}
use bottlerocket_test_system.Bottlerocket.Eks.{IpFamily, VpcConfig, Cluster, some_or, ipv6}

-- `split` at a character
abbrev push : Char → List String → List String
push c [] = String.◌∷◌ c "" ∷ []
push c (p ∷ ps) = String.◌∷◌ c p ∷ ps

unfoldable pub split : ℕ → String → List String
split sep String.[] = "" ∷ []
split sep (String.◌∷◌ c s) =
    let rest = split sep s in if code c == sep then "" ∷ rest else push c rest

-- `join`
unfoldable pub join_with : String → List String → String
join_with sep [] = ""
join_with sep (s ∷ []) = s
join_with sep (s ∷ (t ∷ ts)) = concat s (concat sep (join_with sep (t ∷ ts)))

abbrev first_or_empty : List String → String
first_or_empty [] = ""
first_or_empty (s ∷ ss) = s

abbrev count_of : {A : Type 0} → List A → ℕ
count_of [] = 0
count_of (x ∷ xs) = suc (count_of xs)

module _ (show : ℕ → String) where
  -- the parts of an IPv4 address, the last one replaced
  with_host : List String → Result ProviderError String
  unfolding join_with
  with_host (a ∷ (b ∷ (c ∷ (d ∷ [])))) = ok (join_with "." (a ∷ b ∷ c ∷ "10" ∷ []))
  with_host parts = err (
      new_with_context remaining
        (concat "Expected 4 components in serviceIPv4CIDR but found " (show (count_of parts))))

  dns_ip_for : IpFamily → Option String → Option String → Result ProviderError String
  unfolding with_host split
  dns_ip_for ipv6 ipv4_cidr ipv6_cidr = do
    cidr ← some_or remaining "IPv6 Cluster missing serviceIPv6CIDR information" ipv6_cidr
    ok (concat (first_or_empty (split b'/' cidr)) "a")
  dns_ip_for family ipv4_cidr ipv6_cidr = do
    cidr ← some_or remaining "IPv4 Cluster missing serviceIPv4CIDR information" ipv4_cidr
    with_host (split b'.' cidr)

  service_ip_cidr_to_cluster_dns_ip :
      Option IpFamily → Option String → Option String → Result ProviderError String
  unfolding dns_ip_for
  service_ip_cidr_to_cluster_dns_ip ip_family ipv4_cidr ipv6_cidr = do
    family ← some_or remaining "Cluster network config missing IP family information" ip_family
    dns_ip_for family ipv4_cidr ipv6_cidr

  unfoldable pub cluster_dns_ip : Cluster → Result ProviderError String
  unfolding service_ip_cidr_to_cluster_dns_ip
  cluster_dns_ip cluster = do
    config ←
        some_or remaining "DescribeCluster missing KubernetesNetworkConfig field"
          cluster.kubernetes_network_config
    service_ip_cidr_to_cluster_dns_ip config.ip_family config.service_ipv4_cidr
        config.service_ipv6_cidr

abbrev vpc_config : Cluster → Result ProviderError VpcConfig
vpc_config cluster =
    some_or remaining "Cluster missing resources_vpc_config field" cluster.resources_vpc_config

unfoldable pub eks_subnet_ids : Cluster → Result ProviderError (List String)
eks_subnet_ids cluster = do
  config ← vpc_config cluster
  some_or remaining "resources_vpc_config missing subnet ids" config.subnet_ids

unfoldable pub cluster_sg_of : Cluster → Result ProviderError String
cluster_sg_of cluster = do
  config ← vpc_config cluster
  some_or remaining "resources_vpc_config missing cluster security group id"
      config.cluster_security_group_id

unfoldable pub endpoint_of : Cluster → Result ProviderError String
endpoint_of cluster = some_or remaining "Cluster missing endpoint field" cluster.endpoint

unfoldable pub certificate_of : Cluster → Result ProviderError String
certificate_of cluster = do
  authority ←
      some_or remaining "Cluster missing certificate_authority field" cluster.certificate_authority
  some_or remaining "Certificate authority missing data" authority
